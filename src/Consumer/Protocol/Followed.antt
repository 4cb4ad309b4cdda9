-- ===== src/Consumer/Protocol/Followed.antt =====
-- Run of internal/rabbitmq/consumer.go keeps the protocol.
use stocker_informer.Base.{
  ℕ, zero, suc, ◌+◌, ◌≡◌, refl, inl, inr, Bool, true, false, List, [], ◌∷◌, ◌++◌, Option, none,
  some, Bool-cases, if◌then◌else◌, arith, ◌==◌, ◌%◌, ◌||◌,
}
use stocker_informer.Errors.{Error, ok, err, is_some}
use stocker_informer.Contexts.{Contexts}
use stocker_informer.Effects.{Event, M, slept, logged, info, warn}
use stocker_informer.Session
use stocker_informer.Backoff.{backoff_delay}
use stocker_informer.Consumer.{Consumer}
use stocker_informer.Consumer.Loop.{Consumed, consume}
use stocker_informer.Consumer.Connect.{Connected, connect}
use stocker_informer.Consumer.Connect.Laws.{IsFresh, connect-Holds}
use stocker_informer.Consumer.Supervisor.{
  Ran, shut_down, release_and_shut_down, log_connect_failed, after_sleep, back_off, after_consume,
  run_session, after_connect, rounds, run,
}
use stocker_informer.Consumer.Protocol.{Link, down, streaming, Leads, Leads-append}
use stocker_informer.Consumer.Protocol.Consumed.{IsIdle, consume-Rests}

-- Where a run may stand: anywhere while it runs, and without a connection once it has returned.
abbrev pub IsLeft : Ran → Link → Type 0
IsLeft none l = Unit
IsLeft (some r) l = l ≡ down

-- Some events keep the protocol, up to where a run may stand.
abbrev pub Follows : Link → Ran → List Event → Type 0
Follows l value es = (m : Link) × IsLeft value m × Leads l es m

Follows-append :
    (l : Link) (xs : List Event) (m : Link) (value : Ran) (ys : List Event)
    → Leads l xs m
    → Follows m value ys
    → Follows l value (xs ++ ys)
Follows-append l xs m value ys h (n, left, k) = (n, left, Leads-append l xs m ys n h k)

module _ {W : Type 0} (contexts : Contexts W) where
  open contexts use {Ctx, ctx_err}

  -- What connect leads to.
  abbrev reached : Connected contexts → Link
  reached (err e) = down
  reached (ok s) = streaming

  connect-Leads :
      (c : Consumer contexts) (ctx : Ctx) (w : W)
      → Leads down (connect contexts c ctx w).events (reached (connect contexts c ctx w).value)
  unfolding connect
  connect-Leads c ctx w = ground arith

  release-Follows :
      (s : Session.Session contexts) (l : Link) (w : W)
      → s.closed ≡ false
      → IsIdle l
      → let out = release_and_shut_down contexts s w in Follows l out.value out.events
  unfolding release_and_shut_down shut_down Session.close
  release-Follows s l w alive (inl e) = rw (e, alive) (down, refl, refl)
  release-Follows s l w alive (inr e) = rw (e, alive) (down, refl, refl)

  close-Leads :
      (s : Session.Session contexts) (l : Link) (w : W)
      → s.closed ≡ false
      → IsIdle l
      → Leads l (Session.close contexts s w).events down
  unfolding Session.close
  close-Leads s l w alive (inl e) = rw (e, alive) refl
  close-Leads s l w alive (inr e) = rw (e, alive) refl

  after_sleep-Follows :
      (rest : M W Ran) (failed : Option Error) (w : W)
      → ((w' : W) → Follows down (rest w').value (rest w').events)
      → let out = after_sleep contexts rest failed w in Follows down out.value out.events
  unfolding after_sleep
  after_sleep-Follows rest none w h = h w
  after_sleep-Follows rest (some e) w h = (down, refl, refl)

  back_off-Follows :
      (c : Consumer contexts) (ctx : Ctx) (next : ℕ → M W Ran) (failures : ℕ) (w : W)
      → ((w' : W) → Follows down (next failures w').value (next failures w').events)
      → let out = back_off contexts c ctx next failures w in Follows down out.value out.events
  unfolding back_off
  back_off-Follows c ctx next failures w h =
      let (failed, w1) = c.sleep ctx (backoff_delay failures) w in
      let out = after_sleep contexts (next failures) failed w1 in
      Follows-append down (slept (backoff_delay failures) ∷ []) down out.value out.events refl
        (after_sleep-Follows (next failures) failed w1 h)

  after_consume-Follows :
      (c : Consumer contexts) (ctx : Ctx) (s : Session.Session contexts) (next : ℕ → M W Ran)
      (failures : ℕ) (consumed : Consumed) (l : Link) (w : W)
      → s.closed ≡ false
      → IsIdle l
      → ((f : ℕ) (w' : W) → Follows down (next f w').value (next f w').events)
      → let out = after_consume contexts c ctx s next failures consumed w in
        Follows l out.value out.events
  unfolding after_consume
  after_consume-Follows c ctx s next failures none l w alive idle h = (l, tt, refl)
  after_consume-Follows c ctx s next failures (some (any, e)) l w alive idle h =
      elim (Bool-cases (is_some (ctx_err ctx w))) [
        | inl over ↦ rw over (release-Follows s l w alive idle)
        | inr running ↦
            let f = (if any then 0 else failures) + 1 in
            let closing = Session.close contexts s w in
            let out = back_off contexts c ctx next f closing.world in
            rw running (
              Follows-append l (logged warn "rabbitmq consumer connection lost" ∷ closing.events)
                down out.value out.events (close-Leads s l w alive idle)
                (back_off-Follows c ctx next f closing.world (h f)))
      ]

  run_session-Follows :
      (fuel : ℕ) (c : Consumer contexts) (ctx : Ctx) (s : Session.Session contexts)
      (next : ℕ → M W Ran) (failures : ℕ) (connected : Bool) (w : W)
      → s.closed ≡ false
      → ((f : ℕ) (w' : W) → Follows down (next f w').value (next f w').events)
      → let out = run_session contexts fuel c ctx s next failures connected w in
        Follows streaming out.value out.events
  unfolding run_session
  run_session-Follows fuel c ctx s next failures connected w alive h =
      let consuming = consume contexts fuel c ctx s false w in
      let (m, idle, leads) = consume-Rests contexts s alive c ctx fuel false w in
      let out = after_consume contexts c ctx s next failures consuming.value consuming.world in
      let line =
        if connected then "rabbitmq consumer reconnected" else "rabbitmq consumer connected" in
      Follows-append streaming (logged info line ∷ consuming.events) m out.value out.events leads
        (after_consume-Follows c ctx s next failures consuming.value m consuming.world alive idle h)

  log_connect_failed-Leads :
      (n : ℕ) (w : W) → Leads down (log_connect_failed contexts n w).events down
  unfolding log_connect_failed
  log_connect_failed-Leads n w = elim (Bool-cases (n == 1 || n % 10 == 0)) [
    | inl e ↦ rw e refl
    | inr e ↦ rw e refl
  ]

  after_connect-Follows :
      (fuel : ℕ) (c : Consumer contexts) (ctx : Ctx) (next : Bool → ℕ → M W Ran) (failures : ℕ)
      (connected : Bool) (result : Connected contexts) (w : W)
      → IsFresh contexts result
      → ((b : Bool) (f : ℕ) (w' : W) → Follows down (next b f w').value (next b f w').events)
      → let out = after_connect contexts fuel c ctx next failures connected result w in
        Follows (reached result) out.value out.events
  unfolding after_connect shut_down
  after_connect-Follows fuel c ctx next failures connected (err e) w fresh h =
      elim (Bool-cases (is_some (ctx_err ctx w))) [
        | inl over ↦ rw over (down, refl, refl)
        | inr running ↦
            let logging = log_connect_failed contexts (failures + 1) w in
            let out = back_off contexts c ctx (next connected) (failures + 1) logging.world in
            rw running (
              Follows-append down logging.events down out.value out.events
                (log_connect_failed-Leads (failures + 1) w)
                (back_off-Follows c ctx (next connected) (failures + 1) logging.world
                  (h connected (failures + 1))))
      ]
  after_connect-Follows fuel c ctx next failures connected (ok s) w fresh h =
      elim (Bool-cases (is_some (ctx_err ctx w))) [
        | inl over ↦ rw over (release-Follows s streaming w fresh (inl refl))
        | inr running ↦
            rw running
              (run_session-Follows fuel c ctx s (next true) failures connected w fresh (h true))
      ]

  rounds-Follows :
      (n fuel : ℕ) (c : Consumer contexts) (ctx : Ctx) (connected : Bool) (failures : ℕ) (w : W)
      → let out = rounds contexts n fuel c ctx connected failures w in
        Follows down out.value out.events
  unfolding rounds shut_down
  rounds-Follows zero fuel c ctx connected failures w = (down, tt, refl)
  rounds-Follows (suc n) fuel c ctx connected failures w =
      elim (Bool-cases (is_some (ctx_err ctx w))) [
        | inl over ↦ rw over (down, refl, refl)
        | inr running ↦
            let connecting = connect contexts c ctx w in
            let (o, fresh, b) = connect-Holds contexts c ctx w in
            let out =
              after_connect contexts fuel c ctx (rounds contexts n fuel c ctx) failures connected
                connecting.value connecting.world in
            rw running (
              Follows-append down connecting.events (reached connecting.value) out.value out.events
                (connect-Leads c ctx w)
                (after_connect-Follows fuel c ctx (rounds contexts n fuel c ctx) failures connected
                  connecting.value connecting.world fresh (rounds-Follows n fuel c ctx)))
      ]

  -- However long Run goes on, and whatever the broker, the store, the rewriter and the publisher
  -- answer, its effects keep the protocol, from its state without a connection on. At any time
  -- there is one connection with one channel at most, and no wait while there is one; a channel is
  -- set up in one order before it delivers; deliveries are taken one at a time, and each is settled
  -- under its own tag, after at most one read, one rewrite and one publication in this order,
  -- before the next is taken or the channel is closed; and after the cancel each delivery is given
  -- back at once. Where Run has returned, there is no connection left.
  pub run-Follows :
      (n fuel : ℕ) (c : Consumer contexts) (ctx : Ctx) (w : W)
      → let out = run contexts n fuel c ctx w in Follows down out.value out.events
  unfolding run
  run-Follows n fuel c ctx w = rounds-Follows n fuel c ctx false 0 w
