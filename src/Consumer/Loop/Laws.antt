-- ===== src/Consumer/Loop/Laws.antt =====
-- What the consume loop of internal/rabbitmq/consumer.go guarantees.
use stocker_informer.Base.{
  ℕ, zero, suc, ◌≡◌, refl, sym, ◌∙◌, ap, inl, inr, Bool, true, false, [], ◌∷◌, ◌++◌, Option, none,
  some, Bool-cases,
}
use stocker_informer.Errors.{Error, is_some}
use stocker_informer.Contexts.{Contexts}
use stocker_informer.Effects.{received, M}
use stocker_informer.Effects.Tags.{
  settled_tags, IsSettled, IsSettled-append, settled_tags-settlements,
}
use stocker_informer.Session
use stocker_informer.Session.{Delivery, Received, delivery, ended, otherwise}
use stocker_informer.Consumer.{Consumer, log_settlement_failed, handle_delivery}
use stocker_informer.Consumer.Handling.{handle_delivery-Pipeline}
use stocker_informer.Consumer.Settlement.{
  Pipeline-settlements, Pipeline-arrivals, IsSettlement-tags,
}
use stocker_informer.Consumer.Loop.{
  after_poll, drain_deliveries, Consumed, stop_consuming, after_select, consume,
}

module _ {W : Type 0} (contexts : Contexts W) where
  open contexts use {Ctx, ctx_err}

  -- A delivery that arrives and is handled is settled.
  handle_delivery-tags :
      (c : Consumer contexts) (ctx : Ctx) (s : Session.Session contexts) (d : Delivery) (w : W)
      → s.closed ≡ false
      → IsSettled (received d.delivery_tag ∷ (handle_delivery contexts c ctx s d w).events)
  handle_delivery-tags c ctx s d w alive =
      let p = handle_delivery-Pipeline contexts ctx s d alive c w in
      let es = (handle_delivery contexts c ctx s d w).events in
      let (e, settlement, same) = Pipeline-settlements contexts ctx d c w es p in
      sym (settled_tags-settlements es)
      ∙ (ap settled_tags same
          ∙ (IsSettlement-tags contexts ctx d e settlement
              ∙ ap (λ zs. d.delivery_tag ∷ zs) (sym (Pipeline-arrivals contexts ctx d c w es p))))

  log_settlement_failed-IsSettled :
      (failed : Option Error) (w : W) → IsSettled (log_settlement_failed contexts failed w).events
  unfolding log_settlement_failed
  log_settlement_failed-IsSettled none w = refl
  log_settlement_failed-IsSettled (some e) w = refl

  module _ (s : Session.Session contexts) (alive : s.closed ≡ false) where
    nack-IsSettled :
        (tag : ℕ) (w : W) → IsSettled (received tag ∷ (Session.nack contexts s tag true w).events)
    unfolding Session.nack
    nack-IsSettled tag w = rw alive

    after_poll-IsSettled :
        (rest : M W (Option (Unit {0}))) (r : Received) (w : W)
        → ((w' : W) → IsSettled (rest w').events)
        → IsSettled (after_poll contexts s rest r w).events
    unfolding after_poll
    after_poll-IsSettled rest ended w h = refl
    after_poll-IsSettled rest otherwise w h = refl
    after_poll-IsSettled rest (delivery d) w h =
        let nacking = Session.nack contexts s d.delivery_tag true w in
        let logging = log_settlement_failed contexts nacking.value nacking.world in
        let going = rest logging.world in
        IsSettled-append (received d.delivery_tag ∷ nacking.events) (logging.events ++ going.events)
          (nack-IsSettled d.delivery_tag w)
          (IsSettled-append logging.events going.events
            (log_settlement_failed-IsSettled nacking.value nacking.world) (h logging.world))

    drain-IsSettled : (fuel : ℕ) (w : W) → IsSettled (drain_deliveries contexts fuel s w).events
    unfolding drain_deliveries
    drain-IsSettled zero w = refl
    drain-IsSettled (suc fuel) w =
        let (r, w') = s.deliveries.poll w in
        after_poll-IsSettled (drain_deliveries contexts fuel s) r w' (drain-IsSettled fuel)

    cancel_consumer-IsSettled : (w : W) → IsSettled (Session.cancel_consumer contexts s w).events
    unfolding Session.cancel_consumer
    cancel_consumer-IsSettled w = rw alive

    stop_consuming-IsSettled :
        (fuel : ℕ) (any : Bool) (w : W) → IsSettled (stop_consuming contexts fuel s any w).events
    unfolding stop_consuming
    stop_consuming-IsSettled fuel any w =
        let cancelling = Session.cancel_consumer contexts s w in
        let draining = drain_deliveries contexts fuel s cancelling.world in
        IsSettled-append cancelling.events (draining.events ++ []) (cancel_consumer-IsSettled w)
          (IsSettled-append draining.events [] (drain-IsSettled fuel cancelling.world) refl)

    after_select-IsSettled :
        (c : Consumer contexts) (ctx : Ctx) (any : Bool) (stop rest : M W Consumed) (r : Received)
        (w : W)
        → ((w' : W) → IsSettled (stop w').events)
        → ((w' : W) → IsSettled (rest w').events)
        → IsSettled (after_select contexts c ctx s any stop rest r w).events
    unfolding after_select
    after_select-IsSettled c ctx any stop rest ended w h k = refl
    after_select-IsSettled c ctx any stop rest otherwise w h k = h w
    after_select-IsSettled c ctx any stop rest (delivery d) w h k =
        let handling = handle_delivery contexts c ctx s d w in
        IsSettled-append (received d.delivery_tag ∷ handling.events) (rest handling.world).events
          (handle_delivery-tags c ctx s d w alive) (k handling.world)

    -- On an open session, however long it runs: each delivery that arrives, in the loop or in the
    -- drain after a shutdown, is settled exactly once, in the order of arrival, and nothing else is
    -- settled.
    pub consume-IsSettled :
        (c : Consumer contexts) (ctx : Ctx) (fuel : ℕ) (any : Bool) (w : W)
        → IsSettled (consume contexts fuel c ctx s any w).events
    unfolding consume
    consume-IsSettled c ctx zero any w = refl
    consume-IsSettled c ctx (suc fuel) any w = elim (Bool-cases (is_some (ctx_err ctx w))) [
      | inl over ↦ rw over (stop_consuming-IsSettled fuel any w)
      | inr running ↦
          let (r, w') = s.deliveries.select ctx w in
          rw running (
            after_select-IsSettled c ctx any (stop_consuming contexts fuel s any)
              (consume contexts fuel c ctx s true) r w' (stop_consuming-IsSettled fuel any)
              (consume-IsSettled c ctx fuel true))
    ]
