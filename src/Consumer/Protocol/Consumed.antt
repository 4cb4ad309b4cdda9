-- ===== src/Consumer/Protocol/Consumed.antt =====
-- consume and drainDeliveries of internal/rabbitmq/consumer.go in the protocol.
use stocker_informer.Base.{
  ℕ, zero, suc, ◌≡◌, ◌⊎◌, refl, inl, inr, Bool, true, false, List, [], ◌∷◌, ◌++◌, Option, none,
  some, Bool-cases,
}
use stocker_informer.Errors.{Error, is_some}
use stocker_informer.Contexts.{Contexts}
use stocker_informer.Effects.{Event, received, M}
use stocker_informer.Session
use stocker_informer.Session.{Delivery, Received, delivery, ended, otherwise}
use stocker_informer.Consumer.{Consumer, log_settlement_failed, handle_delivery}
use stocker_informer.Consumer.Loop.{
  after_poll, drain_deliveries, Consumed, stop_consuming, after_select, consume,
}
use stocker_informer.Consumer.Protocol.{Link, streaming, draining, Leads, Leads-append}
use stocker_informer.Consumer.Protocol.Handled.{same_tag, handle_delivery-Leads}

-- A consumer that no delivery waits for.
abbrev pub IsIdle : Link → Type 0
IsIdle l = (l ≡ streaming) ⊎ (l ≡ draining)

abbrev pub Rests : Link → List Event → Type 0
Rests l es = (m : Link) × IsIdle m × Leads l es m

Rests-append :
    (l : Link) (xs : List Event) (m : Link) (ys : List Event)
    → Leads l xs m
    → Rests m ys
    → Rests l (xs ++ ys)
Rests-append l xs m ys h (n, idle, k) = (n, idle, Leads-append l xs m ys n h k)

module _ {W : Type 0} (contexts : Contexts W) where
  open contexts use {Ctx, ctx_err}

  log_settlement_failed-Leads :
      (failed : Option Error) (w : W)
      → Leads draining (log_settlement_failed contexts failed w).events draining
  unfolding log_settlement_failed
  log_settlement_failed-Leads none w = refl
  log_settlement_failed-Leads (some e) w = refl

  module _ (s : Session.Session contexts) (alive : s.closed ≡ false) where
    nack-Leads :
        (tag : ℕ) (w : W)
        → Leads draining (received tag ∷ (Session.nack contexts s tag true w).events) draining
    unfolding Session.nack
    nack-Leads tag w = rw alive (rw (same_tag tag) refl)

    after_poll-Leads :
        (rest : M W (Option (Unit {0}))) (r : Received) (w : W)
        → ((w' : W) → Leads draining (rest w').events draining)
        → Leads draining (after_poll contexts s rest r w).events draining
    unfolding after_poll
    after_poll-Leads rest ended w h = refl
    after_poll-Leads rest otherwise w h = refl
    after_poll-Leads rest (delivery d) w h =
        let nacking = Session.nack contexts s d.delivery_tag true w in
        let logging = log_settlement_failed contexts nacking.value nacking.world in
        let going = rest logging.world in
        Leads-append draining (received d.delivery_tag ∷ nacking.events) draining
          (logging.events ++ going.events) draining (nack-Leads d.delivery_tag w)
          (Leads-append draining logging.events draining going.events draining
            (log_settlement_failed-Leads nacking.value nacking.world) (h logging.world))

    drain-Leads :
        (fuel : ℕ) (w : W) → Leads draining (drain_deliveries contexts fuel s w).events draining
    unfolding drain_deliveries
    drain-Leads zero w = refl
    drain-Leads (suc fuel) w =
        let (r, w') = s.deliveries.poll w in
        after_poll-Leads (drain_deliveries contexts fuel s) r w' (drain-Leads fuel)

    cancel_consumer-Leads :
        (w : W) → Leads streaming (Session.cancel_consumer contexts s w).events draining
    unfolding Session.cancel_consumer
    cancel_consumer-Leads w = rw alive refl

    stop_consuming-Rests :
        (fuel : ℕ) (any : Bool) (w : W)
        → Rests streaming (stop_consuming contexts fuel s any w).events
    unfolding stop_consuming
    stop_consuming-Rests fuel any w =
        let cancelling = Session.cancel_consumer contexts s w in
        let draining_all = drain_deliveries contexts fuel s cancelling.world in
        Rests-append streaming cancelling.events draining (draining_all.events ++ [])
          (cancel_consumer-Leads w)
          (Rests-append draining draining_all.events draining [] (drain-Leads fuel cancelling.world)
            (draining, inr refl, refl))

    after_select-Rests :
        (c : Consumer contexts) (ctx : Ctx) (any : Bool) (stop rest : M W Consumed) (r : Received)
        (w : W)
        → ((w' : W) → Rests streaming (stop w').events)
        → ((w' : W) → Rests streaming (rest w').events)
        → Rests streaming (after_select contexts c ctx s any stop rest r w).events
    unfolding after_select
    after_select-Rests c ctx any stop rest ended w h k = (streaming, inl refl, refl)
    after_select-Rests c ctx any stop rest otherwise w h k = h w
    after_select-Rests c ctx any stop rest (delivery d) w h k =
        let handled = handle_delivery contexts c ctx s d w in
        Rests-append streaming (received d.delivery_tag ∷ handled.events) streaming
          (rest handled.world).events (handle_delivery-Leads contexts ctx d c s w alive)
          (k handled.world)

    -- On an open session the loop keeps the protocol, and leaves no delivery unsettled.
    pub consume-Rests :
        (c : Consumer contexts) (ctx : Ctx) (fuel : ℕ) (any : Bool) (w : W)
        → Rests streaming (consume contexts fuel c ctx s any w).events
    unfolding consume
    consume-Rests c ctx zero any w = (streaming, inl refl, refl)
    consume-Rests c ctx (suc fuel) any w = elim (Bool-cases (is_some (ctx_err ctx w))) [
      | inl over ↦ rw over (stop_consuming-Rests fuel any w)
      | inr running ↦
          let (r, w') = s.deliveries.select ctx w in
          rw running (
            after_select-Rests c ctx any (stop_consuming contexts fuel s any)
              (consume contexts fuel c ctx s true) r w' (stop_consuming-Rests fuel any)
              (consume-Rests c ctx fuel true))
    ]
