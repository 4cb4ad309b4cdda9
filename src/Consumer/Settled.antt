-- ===== src/Consumer/Settled.antt =====
-- How settle of internal/rabbitmq/consumer.go settles a delivery.
use stocker_informer.Base.{
  ◌≡◌, refl, ap, inl, inr, true, false, List, [], ◌∷◌, Option, none, some, Bool-cases,
}
use stocker_informer.Errors.{Error, is_some}
use stocker_informer.Contexts.{Contexts}
use stocker_informer.Effects.{Event, acked, nacked}
use stocker_informer.Effects.Laws.{effects}
use stocker_informer.Session
use stocker_informer.Session.{Delivery}
use stocker_informer.Consumer.{log_settlement_failed, settle}

module _ {W : Type 0} (contexts : Contexts W) where
  open contexts use {Ctx, ctx_err}

  -- How a delivery is settled: by an ack, or by a requeue once the context has ended.
  pub data IsSettlement (ctx : Ctx) (d : Delivery) (e : Event) : Type 0 where
    done : e ≡ acked d.delivery_tag → IsSettlement ctx d e
    requeued :
        (w : W)
        → is_some (ctx_err ctx w) ≡ true
        → e ≡ nacked d.delivery_tag true
        → IsSettlement ctx d e

  -- Some events have one effect, a settlement.
  abbrev pub Settles : Ctx → Delivery → List Event → Type 0
  Settles ctx d es = (e : Event) × IsSettlement ctx d e × (effects es ≡ e ∷ [])

  module _ (ctx : Ctx) (sess : Session.Session contexts) (d : Delivery)
      (alive : sess.closed ≡ false) where
    log_settlement_failed-effects :
        (failed : Option Error) (w : W)
        → effects (log_settlement_failed contexts failed w).events ≡ []
    unfolding log_settlement_failed
    log_settlement_failed-effects none w = refl
    log_settlement_failed-effects (some e) w = refl

    pub settle_cancelled :
        (w : W)
        → is_some (ctx_err ctx w) ≡ true
        → effects (settle contexts ctx sess d w).events ≡ nacked d.delivery_tag true ∷ []
    unfolding settle Session.nack
    settle_cancelled w h =
        rw h (
          rw alive (ap (λ es. nacked d.delivery_tag true ∷ es) (log_settlement_failed-effects _ _)))

    settle_running :
        (w : W)
        → is_some (ctx_err ctx w) ≡ false
        → effects (settle contexts ctx sess d w).events ≡ acked d.delivery_tag ∷ []
    unfolding settle Session.ack
    settle_running w h =
        rw h (rw alive (ap (λ es. acked d.delivery_tag ∷ es) (log_settlement_failed-effects _ _)))

    pub settle-Settles : (w : W) → Settles ctx d (settle contexts ctx sess d w).events
    settle-Settles w = elim (Bool-cases (is_some (ctx_err ctx w))) [
      | inl h ↦ (nacked d.delivery_tag true, requeued w h refl, settle_cancelled w h)
      | inr h ↦ (acked d.delivery_tag, done refl, settle_running w h)
    ]
