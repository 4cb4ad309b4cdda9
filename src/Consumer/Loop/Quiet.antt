-- ===== src/Consumer/Loop/Quiet.antt =====
-- The consume loop of internal/rabbitmq/consumer.go opens and closes nothing, and does not wait.
use stocker_informer.Base.{
  ℕ, zero, suc, ◌≡◌, inl, inr, Bool, true, false, List, [], ◌∷◌, Option, none, some, Bool-cases,
  Text, All-append,
}
use stocker_informer.Errors.{Error, is_some}
use stocker_informer.Contexts.{Contexts}
use stocker_informer.Effects.{Event, M, received}
use stocker_informer.Effects.Quiet.{IsQuiet, AllQuiet, AllQuiet-effects}
use stocker_informer.Session
use stocker_informer.Session.{Delivery, Received, delivery, ended, otherwise}
use stocker_informer.Consumer.{Consumer, log_settlement_failed, handle_delivery}
use stocker_informer.Consumer.Publication.{Rewriter, Publication, plain, reworked}
use stocker_informer.Consumer.Handling.{
  Pipeline, refused, unpublished, delivered, handle_delivery-Pipeline,
}
use stocker_informer.Consumer.Settled.{IsSettlement, done, requeued}
use stocker_informer.Consumer.Loop.{
  after_poll, drain_deliveries, Consumed, stop_consuming, after_select, consume,
}

module _ {W : Type 0} (contexts : Contexts W) where
  open contexts use {Ctx, ctx_err}

  module _ (ctx : Ctx) (d : Delivery) where
    settlement-IsQuiet : (e : Event) → IsSettlement contexts ctx d e → IsQuiet e
    settlement-IsQuiet e (done h) = rw h tt
    settlement-IsQuiet e (requeued w c h) = rw h tt

    Publication-AllQuiet :
        (rewriter : Rewriter contexts) (text : Text) (es : List Event)
        → Publication contexts rewriter ctx text es
        → AllQuiet es
    Publication-AllQuiet rewriter text es (plain n h) = rw h (tt, tt)
    Publication-AllQuiet rewriter text es (reworked rewrite s w report r fit h) =
        rw h (tt, (tt, tt))

    Pipeline-AllQuiet :
        (c : Consumer contexts) (w : W) (es : List Event)
        → Pipeline contexts c ctx d w es
        → AllQuiet es
    Pipeline-AllQuiet c w es (refused h (e, s, p)) =
        AllQuiet-effects es (rw p (settlement-IsQuiet e s, tt))
    Pipeline-AllQuiet c w es (unpublished id h u e s p) =
        AllQuiet-effects es (rw p (tt, (settlement-IsQuiet e s, tt)))
    Pipeline-AllQuiet c w es (delivered id h content r fit ps publication e s p) =
        AllQuiet-effects es (
          rw p (
            tt,
            All-append IsQuiet ps (e ∷ []) (Publication-AllQuiet c.rewriter _ ps publication)
                (settlement-IsQuiet e s, tt),
          ))

  log_settlement_failed-AllQuiet :
      (failed : Option Error) (w : W) → AllQuiet (log_settlement_failed contexts failed w).events
  unfolding log_settlement_failed
  log_settlement_failed-AllQuiet none w = tt
  log_settlement_failed-AllQuiet (some e) w = (tt, tt)

  module _ (s : Session.Session contexts) (alive : s.closed ≡ false) where
    nack-AllQuiet :
        (tag : ℕ) (w : W) → AllQuiet (received tag ∷ (Session.nack contexts s tag true w).events)
    unfolding Session.nack
    nack-AllQuiet tag w = rw alive (tt, (tt, tt))

    after_poll-AllQuiet :
        (rest : M W (Option (Unit {0}))) (r : Received) (w : W)
        → ((w' : W) → AllQuiet (rest w').events)
        → AllQuiet (after_poll contexts s rest r w).events
    unfolding after_poll
    after_poll-AllQuiet rest ended w h = tt
    after_poll-AllQuiet rest otherwise w h = tt
    after_poll-AllQuiet rest (delivery d) w h =
        let nacking = Session.nack contexts s d.delivery_tag true w in
        let logging = log_settlement_failed contexts nacking.value nacking.world in
        All-append IsQuiet (received d.delivery_tag ∷ nacking.events) _
          (nack-AllQuiet d.delivery_tag w)
          (All-append IsQuiet logging.events _
            (log_settlement_failed-AllQuiet nacking.value nacking.world) (h logging.world))

    drain-AllQuiet : (fuel : ℕ) (w : W) → AllQuiet (drain_deliveries contexts fuel s w).events
    unfolding drain_deliveries
    drain-AllQuiet zero w = tt
    drain-AllQuiet (suc fuel) w =
        let (r, w') = s.deliveries.poll w in
        after_poll-AllQuiet (drain_deliveries contexts fuel s) r w' (drain-AllQuiet fuel)

    cancel_consumer-AllQuiet : (w : W) → AllQuiet (Session.cancel_consumer contexts s w).events
    unfolding Session.cancel_consumer
    cancel_consumer-AllQuiet w = rw alive (tt, tt)

    stop_consuming-AllQuiet :
        (fuel : ℕ) (any : Bool) (w : W) → AllQuiet (stop_consuming contexts fuel s any w).events
    unfolding stop_consuming
    stop_consuming-AllQuiet fuel any w =
        let cancelling = Session.cancel_consumer contexts s w in
        let draining = drain_deliveries contexts fuel s cancelling.world in
        All-append IsQuiet cancelling.events _ (cancel_consumer-AllQuiet w)
          (All-append IsQuiet draining.events [] (drain-AllQuiet fuel cancelling.world) tt)

    after_select-AllQuiet :
        (c : Consumer contexts) (ctx : Ctx) (any : Bool) (stop rest : M W Consumed) (r : Received)
        (w : W)
        → ((w' : W) → AllQuiet (stop w').events)
        → ((w' : W) → AllQuiet (rest w').events)
        → AllQuiet (after_select contexts c ctx s any stop rest r w).events
    unfolding after_select
    after_select-AllQuiet c ctx any stop rest ended w h k = tt
    after_select-AllQuiet c ctx any stop rest otherwise w h k = h w
    after_select-AllQuiet c ctx any stop rest (delivery d) w h k =
        let handling = handle_delivery contexts c ctx s d w in
        (
          tt,
          All-append IsQuiet handling.events _
              (Pipeline-AllQuiet ctx d c w _ (handle_delivery-Pipeline contexts ctx s d alive c w))
              (k handling.world),
        )

    pub consume-AllQuiet :
        (c : Consumer contexts) (ctx : Ctx) (fuel : ℕ) (any : Bool) (w : W)
        → AllQuiet (consume contexts fuel c ctx s any w).events
    unfolding consume
    consume-AllQuiet c ctx zero any w = tt
    consume-AllQuiet c ctx (suc fuel) any w = elim (Bool-cases (is_some (ctx_err ctx w))) [
      | inl over ↦ rw over (stop_consuming-AllQuiet fuel any w)
      | inr running ↦
          let (r, w') = s.deliveries.select ctx w in
          rw running (
            after_select-AllQuiet c ctx any (stop_consuming contexts fuel s any)
              (consume contexts fuel c ctx s true) r w' (stop_consuming-AllQuiet fuel any)
              (consume-AllQuiet c ctx fuel true))
    ]
