-- ===== src/Consumer/Loop/Finite.antt =====
-- A stream of deliveries that ends, and what handling a delivery (internal/rabbitmq/consumer.go)
-- leaves of it.
use stocker_informer.Base.{
  ℕ, ◌≤◌, ◌<◌, ◌≡◌, refl, inl, inr, true, false, [], ◌∷◌, Option, none, some, arith, Bool-cases,
  Text, is_empty,
}
use stocker_informer.Errors.{Error, is_some, Result, ok, err, is_summary_not_found}
use stocker_informer.Contexts.{Contexts}
use stocker_informer.Text.{trim_space}
use stocker_informer.Session
use stocker_informer.Session.{Delivery, Received, delivery, ended, otherwise}
use stocker_informer.Consumer.{
  Consumer, StockIdentity, decode_stock, log_settlement_failed, settle, log_rewrite, rewrite_step,
  after_publish, publish_step, publish_summary, log_read_failed, after_read, after_decode,
  handle_delivery,
}

module _ {W : Type 0} (contexts : Contexts W) where
  open contexts use {Ctx, ctx_err}

  -- A stream that ends: a number of deliveries still to come, which falls with each receive and
  -- which no call of the consumer makes grow.
  pub record IsFinite (c : Consumer contexts) (ctx : Ctx) (s : Session.Session contexts)
      : Type 0 where
    pub pending : W → ℕ
    pub select_falls :
        (w : W) (d : Delivery)
        → (s.deliveries.select ctx w).0 ≡ delivery d
        → pending (s.deliveries.select ctx w).1 < pending w
    pub select_keeps : (w : W) → pending (s.deliveries.select ctx w).1 ≤ pending w
    pub poll_falls :
        (w : W) (d : Delivery)
        → (s.deliveries.poll w).0 ≡ delivery d
        → pending (s.deliveries.poll w).1 < pending w
    pub ack_keeps : (tag : ℕ) (w : W) → pending (s.ch.ack tag false w).1 ≤ pending w
    pub nack_keeps : (tag : ℕ) (w : W) → pending (s.ch.nack tag false true w).1 ≤ pending w
    pub cancel_keeps : (w : W) → pending (s.ch.cancel s.tag false w).1 ≤ pending w
    pub read_keeps :
        (exchange symbol : Text) (w : W) → pending (c.summaries ctx exchange symbol w).1 ≤ pending w
    pub rewrite_keeps :
        (rewrite : Ctx → Text → W → Result Text × W)
        → c.rewriter ≡ some rewrite
        → (text : Text) (w : W) → pending (rewrite ctx text w).1 ≤ pending w
    pub publish_keeps : (text : Text) (w : W) → pending (c.publisher ctx text w).1 ≤ pending w

  module _ (c : Consumer contexts) (ctx : Ctx) (s : Session.Session contexts)
      (fin : IsFinite c ctx s) where
    open fin use {pending}

    pub log_settlement_failed-keeps :
        (failed : Option Error) (w : W)
        → pending (log_settlement_failed contexts failed w).world ≤ pending w
    unfolding log_settlement_failed
    log_settlement_failed-keeps none w = omega arith
    log_settlement_failed-keeps (some e) w = omega arith

    pub nack-keeps :
        (tag : ℕ) (w : W) → pending (Session.nack contexts s tag true w).world ≤ pending w
    unfolding Session.nack
    nack-keeps tag w = elim (Bool-cases s.closed) [
      | inl e ↦ rw e (omega arith)
      | inr e ↦ rw e (fin.nack_keeps tag w)
    ]

    ack-keeps : (tag : ℕ) (w : W) → pending (Session.ack contexts s tag w).world ≤ pending w
    unfolding Session.ack
    ack-keeps tag w = elim (Bool-cases s.closed) [
      | inl e ↦ rw e (omega arith)
      | inr e ↦ rw e (fin.ack_keeps tag w)
    ]

    settle-keeps : (d : Delivery) (w : W) → pending (settle contexts ctx s d w).world ≤ pending w
    unfolding settle
    settle-keeps d w = elim (Bool-cases (is_some (ctx_err ctx w))) [
      | inl e ↦
          let out = Session.nack contexts s d.delivery_tag true w in
          rw e (
            omega
              (arith, log_settlement_failed-keeps out.value out.world, nack-keeps d.delivery_tag w))
      | inr e ↦
          let out = Session.ack contexts s d.delivery_tag w in
          rw e (
            omega
              (arith, log_settlement_failed-keeps out.value out.world, ack-keeps d.delivery_tag w))
    ]

    after_publish-keeps :
        (d : Delivery) (failed : Option Error) (w : W)
        → pending (after_publish contexts ctx s d failed w).world ≤ pending w
    unfolding after_publish
    after_publish-keeps d none w = settle-keeps d w
    after_publish-keeps d (some e) w = settle-keeps d w

    publish_step-keeps :
        (d : Delivery) (text : Text) (w : W)
        → pending (publish_step contexts c ctx s d text w).world ≤ pending w
    unfolding publish_step
    publish_step-keeps d text w =
        let (failed, w1) = c.publisher ctx text w in
        omega (arith, after_publish-keeps d failed w1, fin.publish_keeps text w)

    log_rewrite-keeps :
        (report : Result Text) (w : W) → pending (log_rewrite contexts report w).world ≤ pending w
    unfolding log_rewrite
    log_rewrite-keeps (err e) w = omega arith
    log_rewrite-keeps (ok report) w = elim (Bool-cases (is_empty (trim_space report))) [
      | inl e ↦ rw e (omega arith)
      | inr e ↦ rw e (omega arith)
    ]

    rewrite_step-keeps :
        (rewriter : Option (Ctx → Text → W → Result Text × W)) (text : Text) (w : W)
        → c.rewriter ≡ rewriter
        → pending (rewrite_step contexts rewriter ctx text w).world ≤ pending w
    unfolding rewrite_step
    rewrite_step-keeps none text w h = omega arith
    rewrite_step-keeps (some rewrite) text w h =
        let (report, w1) = rewrite ctx text w in
        omega (arith, log_rewrite-keeps report w1, fin.rewrite_keeps rewrite h text w)

    publish_summary-keeps :
        (d : Delivery) (text : Text) (w : W)
        → pending (publish_summary contexts c ctx s d text w).world ≤ pending w
    unfolding publish_summary
    publish_summary-keeps d [] w = settle-keeps d w
    publish_summary-keeps d (r ∷ text) w =
        let out = rewrite_step contexts c.rewriter ctx (r ∷ text) w in
        omega (
          arith,
          publish_step-keeps d out.value.0 out.world,
          rewrite_step-keeps c.rewriter (r ∷ text) w refl,
        )

    log_read_failed-keeps :
        (e : Error) (w : W) → pending (log_read_failed contexts e w).world ≤ pending w
    unfolding log_read_failed
    log_read_failed-keeps e w = elim (Bool-cases (is_summary_not_found e)) [
      | inl h ↦ rw h (omega arith)
      | inr h ↦ rw h (omega arith)
    ]

    after_read-keeps :
        (d : Delivery) (summary : Result Text) (w : W)
        → pending (after_read contexts c ctx s d summary w).world ≤ pending w
    unfolding after_read
    after_read-keeps d (err e) w =
        omega
          (arith, settle-keeps d (log_read_failed contexts e w).world, log_read_failed-keeps e w)
    after_read-keeps d (ok content) w = publish_summary-keeps d (trim_space content) w

    after_decode-keeps :
        (d : Delivery) (identity : Result StockIdentity) (w : W)
        → pending (after_decode contexts c ctx s d identity w).world ≤ pending w
    unfolding after_decode
    after_decode-keeps d (err e) w = settle-keeps d w
    after_decode-keeps d (ok id) w =
        let (summary, w1) = c.summaries ctx id.exchange id.symbol w in
        omega (arith, after_read-keeps d summary w1, fin.read_keeps id.exchange id.symbol w)

    pub handle_delivery-keeps :
        (d : Delivery) (w : W) → pending (handle_delivery contexts c ctx s d w).world ≤ pending w
    unfolding handle_delivery
    handle_delivery-keeps d w = elim (Bool-cases (is_some (ctx_err ctx w))) [
      | inl e ↦ rw e (settle-keeps d w)
      | inr e ↦ rw e (after_decode-keeps d (decode_stock c.unmarshal d.body) w)
    ]
