-- ===== src/Probe/Readiness.antt =====
-- The readiness that the probe of internal/rabbitmq/probe.go reports, and what /health of
-- cmd/server/main.go makes of it.
use stocker_informer.Base.{
  ℕ, zero, suc, ◌≡◌, refl, inl, inr, Bool, true, false, [], ◌∷◌, Option, none, some, arith,
  Bool-cases, if◌then◌else◌, Text,
}
use stocker_informer.Errors.{Error, is_some}
use stocker_informer.Contexts.{Contexts}
use stocker_informer.Int.{ℤ, pos_part}
use stocker_informer.Effects.{M, slept}
use stocker_informer.Health.{health, ready_after}
use stocker_informer.Probe.{
  Status, Probe, Progress, initial_status, note_failure, note_success, after_sleep, failed_round,
  passed_round, after_check, rounds, run,
}
use stocker_informer.Probe.Phases.{
  starting, phases, phase, callbacks, as_number, IsSound, Advances, Advances-append,
}

health_status :
    (version : Text) (flag : Bool) → (health version flag).status ≡ (if flag then 200 else 503)
unfolding health
health_status version true = refl
health_status version false = refl

module _ {W : Type 0} (contexts : Contexts W) where
  open contexts use {Ctx, ctx_err}

  note_failure-Advances :
      (st : Status) (w : W)
      → IsSound st
      → let out = note_failure contexts st.ready st.lost st w in Advances st out.value out.events
  unfolding note_failure ready_after
  note_failure-Advances st w sound = ground arith

  note_success-Advances :
      (st : Status) (w : W)
      → IsSound st
      → let out = note_success contexts true st.ready st.lost st w in
        Advances st out.value out.events
  unfolding note_success ready_after
  note_success-Advances st w sound = ground arith

  -- A computation of the loop advances from `st`.
  abbrev Goes : Status → M W Progress → W → Type 0
  Goes st m w = Advances st (m w).value.1 (m w).events

  -- What changes only the delay changes nothing that is reported.
  quiet-Advances :
      (st : Status) (delay : ℤ) (d : ℕ)
      → IsSound st
      → Advances st (record st { retry_delay = delay }) (slept d ∷ [])
  unfolding ready_after
  quiet-Advances st delay d sound = record {
    sound = sound;
    counted = omega arith;
    flagged = refl;
    phased = refl;
  }

  after_sleep-Goes :
      (next : Status → M W Progress) (st : Status) (now later : ℤ) (d : ℕ) (r : Option Error)
      (w : W)
      → IsSound st
      → ((st' : Status) (w' : W) → IsSound st' → Goes st' (next st') w')
      → let out =
          after_sleep contexts next
            (record st { retry_delay = now })
            (record st { retry_delay = later })
            r
            w in
        Advances st out.value.1 (slept d ∷ out.events)
  unfolding after_sleep
  after_sleep-Goes next st now later d none w sound h =
      Advances-append st (record st { retry_delay = later }) _ (slept d ∷ []) _
        (quiet-Advances st later d sound) (h (record st { retry_delay = later }) w sound)
  after_sleep-Goes next st now later d (some e) w sound h = quiet-Advances st now d sound

  failed_round-Goes :
      (p : Probe contexts) (ctx : Ctx) (next : Status → M W Progress) (st : Status) (w : W)
      → IsSound st
      → ((st' : Status) (w' : W) → IsSound st' → Goes st' (next st') w')
      → Goes st (failed_round contexts p ctx next st) w
  unfolding failed_round
  failed_round-Goes p ctx next st w sound h =
      let noting = note_failure contexts st.ready st.lost st w in
      let st' = noting.value in
      let (r, w') = p.sleep ctx st'.retry_delay noting.world in
      let a = note_failure-Advances st w sound in
      Advances-append st st' _ noting.events _ a
        (after_sleep-Goes next st' st'.retry_delay _ (pos_part st'.retry_delay) r w' a.sound h)

  passed_round-Goes :
      (p : Probe contexts) (ctx : Ctx) (next : Status → M W Progress) (st : Status) (w : W)
      → IsSound st
      → ((st' : Status) (w' : W) → IsSound st' → Goes st' (next st') w')
      → Goes st (passed_round contexts p ctx true next st) w
  unfolding passed_round
  passed_round-Goes p ctx next st w sound h =
      let noting = note_success contexts true st.ready st.lost st w in
      let st' = noting.value in
      let (r, w') = p.sleep ctx p.healthy_every noting.world in
      let a = note_success-Advances st w sound in
      Advances-append st st' _ noting.events _ a (
        after_sleep-Goes next st' p.retry_initial p.retry_initial (pos_part p.healthy_every) r w'
          a.sound h)

  after_check-Goes :
      (p : Probe contexts) (ctx : Ctx) (next : Status → M W Progress) (st : Status)
      (r : Option Error) (w : W)
      → IsSound st
      → ((st' : Status) (w' : W) → IsSound st' → Goes st' (next st') w')
      → Goes st (after_check contexts p ctx true next st r) w
  unfolding after_check
  after_check-Goes p ctx next st none w sound h = passed_round-Goes p ctx next st w sound h
  after_check-Goes p ctx next st (some e) w sound h = failed_round-Goes p ctx next st w sound h

  nothing-Advances : (st : Status) → IsSound st → Advances st st []
  unfolding ready_after
  nothing-Advances st sound = record {
    sound = sound;
    counted = omega arith;
    flagged = refl;
    phased = refl;
  }

  rounds-Goes :
      (n : ℕ) (p : Probe contexts) (ctx : Ctx) (st : Status) (w : W)
      → IsSound st
      → Goes st (rounds contexts n p ctx true st) w
  unfolding rounds
  rounds-Goes zero p ctx st w sound = nothing-Advances st sound
  rounds-Goes (suc n) p ctx st w sound = elim (Bool-cases (is_some (ctx_err ctx w))) [
    | inl over ↦ rw over (nothing-Advances st sound)
    | inr running ↦
        let (r, w') = p.check ctx w in
        rw running (
          after_check-Goes p ctx (rounds contexts n p ctx true) st r w' sound (rounds-Goes n p ctx))
  ]

  -- However long the probe runs, its log lines follow the machine of phases from `starting`: the
  -- connectivity is verified first and once, and then lost and restored in turn; its variables
  -- `ready` and `lost` stand for the phase that is reached; and the readiness callback was called
  -- once if the probe is ready, and not at all if it is not.
  pub run-phases :
      (n : ℕ) (p : Probe contexts) (ctx : Ctx) (w : W)
      → let out = run contexts n p ctx true w in
        (phases starting out.events ≡ some (phase out.value.1.ready out.value.1.lost))
        × (callbacks out.events ≡ as_number out.value.1.ready)
  unfolding run initial_status
  run-phases n p ctx w =
      let a = rounds-Goes n p ctx (initial_status contexts p) w (λ _. refl) in
      (a.phased, omega (arith, a.counted))

  -- The flag that /health reads is the probe's variable `ready`, and /health answers 200 exactly if
  -- it is set, and 503 otherwise.
  pub health_of_run :
      (n : ℕ) (p : Probe contexts) (ctx : Ctx) (w : W) (version : Text)
      → let out = run contexts n p ctx true w in
        let response = health version (ready_after false out.events) in
        (ready_after false out.events ≡ out.value.1.ready)
        × (response.status ≡ (if out.value.1.ready then 200 else 503))
  unfolding run initial_status
  health_of_run n p ctx w version =
      let a = rounds-Goes n p ctx (initial_status contexts p) w (λ _. refl) in
      (a.flagged, rw (a.flagged) (health_status version _))
