-- ===== src/Consumer/Loop.antt =====
-- The consume loop of internal/rabbitmq/consumer.go and its drain. Each loop takes fuel, a bound on
-- the number of receives; a result `none` says that it was still running.
pub mod Laws
pub mod Finite
pub mod Total
pub mod Quiet
use stocker_informer.Base.{
  ℕ, zero, suc, Bool, true, false, List, [], ◌∷◌, Option, none, some, if◌then◌else◌,
}
use stocker_informer.Errors.{Error, session_closed}
use stocker_informer.Contexts.{Contexts}
use stocker_informer.Effects.{received, M, ◌>>=◌, ◌>>◌, pure, take, note}
use stocker_informer.Session
use stocker_informer.Session.{Delivery, Received, delivery, ended, otherwise}
use stocker_informer.Consumer.{Consumer, cancelled, log_settlement_failed, handle_delivery}

-- The result of consume: whether a delivery arrived, and the error.
abbrev pub Consumed : Type 0
Consumed = Option (Bool × Option Error)

abbrev pub consumed : Bool → Option (Unit {0}) → Consumed
consumed delivered none = none
consumed delivered (some t) = some (delivered, none)

module _ {W : Type 0} (contexts : Contexts W) where
  open contexts use {Ctx}

  unfoldable pub after_poll :
      Session.Session contexts → M W (Option (Unit {0})) → Received → M W (Option (Unit {0}))
  after_poll s rest (delivery d) = do
    note (received d.delivery_tag)
    failed ← Session.nack contexts s d.delivery_tag true
    log_settlement_failed contexts failed
    rest
  after_poll s rest ended = pure (some tt)
  after_poll s rest otherwise = pure (some tt)

  unfoldable pub drain_deliveries : ℕ → Session.Session contexts → M W (Option (Unit {0}))
  unfolding after_poll
  drain_deliveries zero s w = pure none w
  drain_deliveries (suc fuel) s w =
      (do r ← take (s.deliveries.poll); after_poll s (drain_deliveries fuel s) r) w

  -- The shutdown path of consume.
  unfoldable pub stop_consuming : ℕ → Session.Session contexts → Bool → M W Consumed
  unfolding drain_deliveries
  stop_consuming fuel s delivered = do
    Session.cancel_consumer contexts s
    drained ← drain_deliveries fuel s
    pure (consumed delivered drained)

  unfoldable pub after_select :
      Consumer contexts
      → Ctx
      → Session.Session contexts
      → Bool
      → M W Consumed
      → M W Consumed
      → Received
      → M W Consumed
  after_select c ctx s delivered stop rest (delivery d) = do
    note (received d.delivery_tag)
    handle_delivery contexts c ctx s d
    rest
  after_select c ctx s delivered stop rest ended = pure (some (delivered, some session_closed))
  after_select c ctx s delivered stop rest otherwise = stop

  unfoldable pub consume :
      ℕ → Consumer contexts → Ctx → Session.Session contexts → Bool → M W Consumed
  unfolding stop_consuming after_select
  consume zero c ctx s delivered w = pure none w
  consume (suc fuel) c ctx s delivered w =
      (do
        over ← cancelled contexts ctx
        let stop = stop_consuming fuel s delivered
        let select = do
          r ← take (s.deliveries.select ctx)
          after_select c ctx s delivered stop (consume fuel c ctx s true) r
        if over then stop else select)
        w
