-- ===== src/Consumer/Loop/Total.antt =====
-- The consume loop of internal/rabbitmq/consumer.go ends when the stream of deliveries does.
use stocker_informer.Base.{
  ℕ, zero, suc, ◌+◌, ◌≤◌, ◌<◌, ◌≡◌, refl, inl, inr, Bool, true, false, ap, Option, none, some,
  arith, Bool-cases,
}
use stocker_informer.Errors.{Error, is_some, session_closed}
use stocker_informer.Contexts.{Contexts}
use stocker_informer.Effects.{M}
use stocker_informer.Session
use stocker_informer.Session.{Delivery, Received, delivery, ended, otherwise}
use stocker_informer.Consumer.{Consumer, log_settlement_failed, handle_delivery}
use stocker_informer.Consumer.Loop.{
  after_poll, drain_deliveries, Consumed, consumed, stop_consuming, after_select, consume,
}
use stocker_informer.Consumer.Loop.Finite.{
  IsFinite, handle_delivery-keeps, log_settlement_failed-keeps, nack-keeps,
}

-- A loop that ended.
abbrev pub Ended : {A : Type 0} → Option A → Type 0
Ended {A} o = (a : A) × (o ≡ some a)

module _ {W : Type 0} (contexts : Contexts W) where
  open contexts use {Ctx, ctx_err}

  module _ (c : Consumer contexts) (ctx : Ctx) (s : Session.Session contexts)
      (fin : IsFinite contexts c ctx s) where
    open fin use {pending}

    after_poll-Ended :
        (fuel : ℕ) (rest : M W (Option (Unit {0}))) (r : Received) (w w0 : W)
        → ((d : Delivery) → r ≡ delivery d → pending w < pending w0)
        → pending w0 ≤ fuel
        → ((w' : W) → pending w' < fuel → Ended (rest w').value)
        → Ended (after_poll contexts s rest r w).value
    unfolding after_poll
    after_poll-Ended fuel rest ended w w0 falls h k = (tt, refl)
    after_poll-Ended fuel rest otherwise w w0 falls h k = (tt, refl)
    after_poll-Ended fuel rest (delivery d) w w0 falls h k =
        let nacking = Session.nack contexts s d.delivery_tag true w in
        k (log_settlement_failed contexts nacking.value nacking.world).world (
          omega (
            arith,
            falls d refl,
            nack-keeps contexts c ctx s fin d.delivery_tag w,
            log_settlement_failed-keeps contexts c ctx s fin nacking.value nacking.world,
          ))

    drain-Ended :
        (fuel : ℕ) (w : W) → pending w < fuel → Ended (drain_deliveries contexts fuel s w).value
    unfolding drain_deliveries
    drain-Ended zero w h = absurd (omega arith)
    drain-Ended (suc fuel) w h =
        let (r, w') = s.deliveries.poll w in
        after_poll-Ended fuel (drain_deliveries contexts fuel s) r w' w (fin.poll_falls w)
          (omega arith) (drain-Ended fuel)

    cancel_consumer-keeps :
        (w : W) → pending (Session.cancel_consumer contexts s w).world ≤ pending w
    unfolding Session.cancel_consumer
    cancel_consumer-keeps w = elim (Bool-cases s.closed) [
      | inl e ↦ rw e (omega arith)
      | inr e ↦ rw e (fin.cancel_keeps w)
    ]

    -- The shutdown path ends without an error.
    stop_consuming-Ended :
        (fuel : ℕ) (any : Bool) (w : W)
        → pending w < fuel
        → (stop_consuming contexts fuel s any w).value ≡ some (any, none)
    unfolding stop_consuming
    stop_consuming-Ended fuel any w h =
        let cancelling = Session.cancel_consumer contexts s w in
        let (t, e) = drain-Ended fuel cancelling.world (omega (arith, cancel_consumer-keeps w)) in
        ap (consumed any) e

    -- How consume goes from the world `w` on, to a result and whether a delivery arrived: it stops
    -- without an error if the context has ended before a receive or its select chooses that the
    -- context ends, and with the error of a closed session if the stream of deliveries has ended;
    -- a delivery is handled, and the loop goes on from the world that this leaves.
    pub data Course : Bool → W → Bool → Option Error → Type 0 where
      stopped_before : {any : Bool} {w : W} → is_some (ctx_err ctx w) ≡ true → Course any w any none
      stopped :
          {any : Bool} {w : W}
          → is_some (ctx_err ctx w) ≡ false
          → (s.deliveries.select ctx w).0 ≡ otherwise
          → Course any w any none
      closed :
          {any : Bool} {w : W}
          → is_some (ctx_err ctx w) ≡ false
          → (s.deliveries.select ctx w).0 ≡ ended
          → Course any w any (some session_closed)
      arrived :
          {any any' : Bool} {w : W} {r : Option Error}
          → is_some (ctx_err ctx w) ≡ false
          → (d : Delivery) → (s.deliveries.select ctx w).0 ≡ delivery d
          → Course true
              (handle_delivery contexts c ctx s d (s.deliveries.select ctx w).1).world
              any'
              r
          → Course any w any' r

    -- A result that the course gives.
    abbrev pub Returns : Bool → W → Consumed → Type 0
    Returns any w result =
        (any' : Bool) × (r : Option Error) × (result ≡ some (any', r)) × Course any w any' r

    after_select-Returns :
        (fuel : ℕ) (any : Bool) (rest : M W Consumed) (w0 : W) (r : Received)
        → is_some (ctx_err ctx w0) ≡ false
        → (s.deliveries.select ctx w0).0 ≡ r
        → pending w0 < fuel
        → ((w' : W) → pending w' < pending w0 → Returns true w' (rest w').value)
        → let w = (s.deliveries.select ctx w0).1 in
          Returns any w0
            (after_select contexts c ctx s any (stop_consuming contexts fuel s any) rest r w).value
    unfolding after_select
    after_select-Returns fuel any rest w0 ended live same h k =
        (any, some session_closed, refl, closed live same)
    after_select-Returns fuel any rest w0 otherwise live same h k =
        let w = (s.deliveries.select ctx w0).1 in
        (
          any,
          none,
          stop_consuming-Ended fuel any w (omega (arith, fin.select_keeps w0)),
          stopped live same,
        )
    after_select-Returns fuel any rest w0 (delivery d) live same h k =
        let w = (s.deliveries.select ctx w0).1 in
        let (any', r, e, course) = k (handle_delivery contexts c ctx s d w).world (
          omega
            (arith, fin.select_falls w0 d same, handle_delivery-keeps contexts c ctx s fin d w)) in
        (any', r, e, arrived live d same course)

    -- Where the deliveries still to come are finitely many: with fuel for each of them, and for two
    -- receives more, consume returns. It returns nil where the context had ended before a receive,
    -- or the receive chose the end of the context, and then only; and the error of a closed session
    -- where the stream of deliveries had ended, and then only. The flag it returns tells whether a
    -- delivery arrived.
    pub consume-Returns :
        (fuel : ℕ) (any : Bool) (w : W)
        → pending w + 2 ≤ fuel
        → Returns any w (consume contexts fuel c ctx s any w).value
    unfolding consume
    consume-Returns zero any w h = absurd (omega arith)
    consume-Returns (suc fuel) any w h = elim (Bool-cases (is_some (ctx_err ctx w))) [
      | inl over ↦
          rw over (any, none, stop_consuming-Ended fuel any w (omega arith), stopped_before over)
      | inr live ↦ rw live (
          after_select-Returns fuel any (consume contexts fuel c ctx s true) w
            (s.deliveries.select ctx w).0 live refl (omega arith)
            (λ w1 less. consume-Returns fuel true w1 (omega arith)))
    ]
