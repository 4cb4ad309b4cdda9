-- ===== src/Consumer/Supervisor/Laws.antt =====
-- What Run of internal/rabbitmq/consumer.go guarantees of each run, however long it is.
use stocker_informer.Base.{
  ℕ, zero, suc, ◌+◌, ◌*◌, ◌≤◌, ◌≡◌, inl, inr, Bool, true, false, List, [], ◌∷◌, ◌++◌, Option, none,
  some, arith, Bool-cases, All, if◌then◌else◌, ◌==◌, ◌%◌, ◌||◌,
}
use stocker_informer.Int.{second}
use stocker_informer.Errors.{Error, ok, err, is_some}
use stocker_informer.Contexts.{Contexts}
use stocker_informer.Effects.{Event, M, slept, logged, warn}
use stocker_informer.Effects.Quiet.{IsOpen, IsBounded, AllQuiet}
use stocker_informer.Session
use stocker_informer.Backoff.{backoff_delay}
use stocker_informer.Consumer.{Consumer}
use stocker_informer.Consumer.Loop.{Consumed, consume}
use stocker_informer.Consumer.Loop.Quiet.{consume-AllQuiet}
use stocker_informer.Consumer.Connect.{Connected, connect}
use stocker_informer.Consumer.Connect.Laws.{IsFresh, held, connect-Holds}
use stocker_informer.Consumer.Supervisor.{
  Ran, shut_down, release_and_shut_down, log_connect_failed, after_sleep, back_off, after_consume,
  run_session, after_connect, rounds, run,
}
use stocker_informer.Consumer.Supervisor.Ends.{Ends, Ends-append, Ends-quiet}

backoff_delay_bounds : (n : ℕ) → (second ≤ backoff_delay n) × (backoff_delay n ≤ 30 * second)
unfolding backoff_delay
backoff_delay_bounds zero = omega arith
backoff_delay_bounds (suc zero) = omega arith
backoff_delay_bounds (suc (suc zero)) = omega arith
backoff_delay_bounds (suc (suc (suc zero))) = omega arith
backoff_delay_bounds (suc (suc (suc (suc zero)))) = omega arith
backoff_delay_bounds (suc (suc (suc (suc (suc zero))))) = omega arith
backoff_delay_bounds (suc (suc (suc (suc (suc (suc k)))))) = ground arith

module _ {W : Type 0} (contexts : Contexts W) where
  open contexts use {Ctx, ctx_err}

  shut_down-Ends : (w : W) → Ends 0 (shut_down contexts w).value (shut_down contexts w).events
  unfolding shut_down
  shut_down-Ends w = ((tt, tt), λ r h. (cc, omega arith))

  release-Ends :
      (s : Session.Session contexts) (w : W)
      → s.closed ≡ false
      → let out = release_and_shut_down contexts s w in Ends 1 out.value out.events
  unfolding release_and_shut_down Session.close
  release-Ends s w alive = rw alive (ground arith)

  after_sleep-Ends :
      (rest : M W Ran) (failed : Option Error) (w : W)
      → ((w' : W) → Ends 0 (rest w').value (rest w').events)
      → let out = after_sleep contexts rest failed w in Ends 0 out.value out.events
  unfolding after_sleep
  after_sleep-Ends rest none w h = h w
  after_sleep-Ends rest (some e) w h = ((tt, tt), λ r p. (cc, omega arith))

  back_off-Ends :
      (c : Consumer contexts) (ctx : Ctx) (next : ℕ → M W Ran) (failures : ℕ) (w : W)
      → ((w' : W) → Ends 0 (next failures w').value (next failures w').events)
      → let out = back_off contexts c ctx next failures w in Ends 0 out.value out.events
  unfolding back_off
  back_off-Ends c ctx next failures w h =
      let (failed, w1) = c.sleep ctx (backoff_delay failures) w in
      Ends-append 0 _ (slept (backoff_delay failures) ∷ []) _ (backoff_delay_bounds failures, tt)
        (omega arith) (after_sleep-Ends (next failures) failed w1 h)

  -- Closing an open session and going on.
  close-Ends :
      (s : Session.Session contexts) (value : Ran) (es : List Event) (w : W)
      → s.closed ≡ false
      → Ends 0 value es
      → Ends 1 value ((Session.close contexts s w).events ++ es)
  unfolding Session.close
  close-Ends s value es w alive (b, ends) = rw alive (
    (tt, (tt, b)),
    λ r h.
        let (same, released) = ends r h in
        (
          same,
          record {
            connections = omega (arith, released.connections);
            channels = omega (arith, released.channels);
          },
        ),
  )

  after_consume-Ends :
      (c : Consumer contexts) (ctx : Ctx) (s : Session.Session contexts) (next : ℕ → M W Ran)
      (failures : ℕ) (consumed : Consumed) (w : W)
      → s.closed ≡ false
      → ((f : ℕ) (w' : W) → Ends 0 (next f w').value (next f w').events)
      → let out = after_consume contexts c ctx s next failures consumed w in
        Ends 1 out.value out.events
  unfolding after_consume
  after_consume-Ends c ctx s next failures none w alive h = (tt, λ r p. cc)
  after_consume-Ends c ctx s next failures (some (any, e)) w alive h =
      elim (Bool-cases (is_some (ctx_err ctx w))) [
        | inl over ↦ rw over (release-Ends s w alive)
        | inr running ↦
            let f = (if any then 0 else failures) + 1 in
            let closing = Session.close contexts s w in
            let out = back_off contexts c ctx next f closing.world in
            rw running (
              Ends-quiet 1 out.value (logged warn "rabbitmq consumer connection lost" ∷ []) _
                (tt, tt)
                (close-Ends s out.value out.events w alive
                  (back_off-Ends c ctx next f closing.world (h f))))
      ]

  run_session-Ends :
      (fuel : ℕ) (c : Consumer contexts) (ctx : Ctx) (s : Session.Session contexts)
      (next : ℕ → M W Ran) (failures : ℕ) (connected : Bool) (w : W)
      → s.closed ≡ false
      → ((f : ℕ) (w' : W) → Ends 0 (next f w').value (next f w').events)
      → let out = run_session contexts fuel c ctx s next failures connected w in
        Ends 1 out.value out.events
  unfolding run_session
  run_session-Ends fuel c ctx s next failures connected w alive h =
      let consuming = consume contexts fuel c ctx s false w in
      Ends-quiet 1 _ (_ ∷ consuming.events) _
        (tt, consume-AllQuiet contexts s alive c ctx fuel false w)
        (after_consume-Ends c ctx s next failures consuming.value consuming.world alive h)

  log_connect_failed-AllQuiet : (n : ℕ) (w : W) → AllQuiet (log_connect_failed contexts n w).events
  unfolding log_connect_failed
  log_connect_failed-AllQuiet n w = elim (Bool-cases (n == 1 || n % 10 == 0)) [
    | inl e ↦ rw e (tt, tt)
    | inr e ↦ rw e (tt, tt)
  ]

  after_connect-Ends :
      (fuel : ℕ) (c : Consumer contexts) (ctx : Ctx) (next : Bool → ℕ → M W Ran) (failures : ℕ)
      (connected : Bool) (result : Connected contexts) (w : W)
      → IsFresh contexts result
      → ((b : Bool) (f : ℕ) (w' : W) → Ends 0 (next b f w').value (next b f w').events)
      → let out = after_connect contexts fuel c ctx next failures connected result w in
        Ends (held contexts result) out.value out.events
  unfolding after_connect
  after_connect-Ends fuel c ctx next failures connected (err e) w fresh h =
      elim (Bool-cases (is_some (ctx_err ctx w))) [
        | inl over ↦ rw over (shut_down-Ends w)
        | inr running ↦
            let logging = log_connect_failed contexts (failures + 1) w in
            rw running (
              Ends-quiet 0 _ logging.events _ (log_connect_failed-AllQuiet (failures + 1) w) (
                back_off-Ends c ctx (next connected) (failures + 1) logging.world
                  (h connected (failures + 1))))
      ]
  after_connect-Ends fuel c ctx next failures connected (ok s) w fresh h =
      elim (Bool-cases (is_some (ctx_err ctx w))) [
        | inl over ↦ rw over (release-Ends s w fresh)
        | inr running ↦
            rw running
              (run_session-Ends fuel c ctx s (next true) failures connected w fresh (h true))
      ]

  rounds-Ends :
      (n fuel : ℕ) (c : Consumer contexts) (ctx : Ctx) (connected : Bool) (failures : ℕ) (w : W)
      → let out = rounds contexts n fuel c ctx connected failures w in Ends 0 out.value out.events
  unfolding rounds
  rounds-Ends zero fuel c ctx connected failures w = (tt, λ r p. cc)
  rounds-Ends (suc n) fuel c ctx connected failures w =
      elim (Bool-cases (is_some (ctx_err ctx w))) [
        | inl over ↦ rw over (shut_down-Ends w)
        | inr running ↦
            let connecting = connect contexts c ctx w in
            let (o, fresh, b) = connect-Holds contexts c ctx w in
            rw running (
              Ends-append (held contexts connecting.value) _ connecting.events _ b o (
                after_connect-Ends fuel c ctx (rounds contexts n fuel c ctx) failures connected
                  connecting.value connecting.world fresh (rounds-Ends n fuel c ctx)))
      ]

  -- However many rounds Run makes: each wait between two of them lasts from one second to thirty;
  -- and once Run has ended, its result is nil, and every connection and channel that it opened was
  -- closed.
  pub run_releases :
      (n fuel : ℕ) (c : Consumer contexts) (ctx : Ctx) (w : W)
      → let out = run contexts n fuel c ctx w in
        All IsBounded out.events
        × ((r : Option Error) → out.value ≡ some r → (r ≡ none) × IsOpen 0 out.events)
  unfolding run
  run_releases n fuel c ctx w =
      let (b, ends) = rounds-Ends n fuel c ctx false 0 w in
      (
        (tt, b),
        λ r h.
            let (same, released) = ends r h in
            (
              same,
              record {
                connections = omega (arith, released.connections);
                channels = omega (arith, released.channels);
              },
            ),
      )
