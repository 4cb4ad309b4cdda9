-- ===== src/Probe/Delays.antt =====
-- The retry delays of the probe's loop in internal/rabbitmq/probe.go.
use native.Mathlib.Nat.{pow-suc}
use stocker_informer.Base.{
  ◌%◌, ltb, Bool-cases, inl, inr, ◌+◌, ℕ, zero, suc, ◌*◌, ◌^◌, ◌≤◌, ◌<◌, ◌≡◌, refl, ◌∙◌, ap, Bool,
  true, false, List, [], ◌∷◌, Option, none, some, arith, min,
}
use stocker_informer.Int.{ℤ, pos, pos_part, min_ℤ, scale}
use stocker_informer.Config.Range.{of_bits_small, test_lt, test_le}
use stocker_informer.Errors.{Error, is_some}
use stocker_informer.Contexts.{Contexts}
use stocker_informer.Effects.{M}
use stocker_informer.Effects.Waits.{waits, waits-append}
use stocker_informer.Probe.{
  Status, Probe, Progress, initial_status, note_failure, after_sleep, failed_round, after_check,
  rounds, run,
}

-- The delays of `n` failed rounds after `k` earlier ones.
abbrev pub retry_delays : ℕ → ℕ → ℕ → ℕ → List ℕ
retry_delays initial top k zero = []
retry_delays initial top k (suc n) = min (initial * 2 ^ k) top ∷ retry_delays initial top (suc k) n

pow_step : (a k : ℕ) → a * 2 ^ suc k ≡ 2 * (a * 2 ^ k)
pow_step a k = rw (pow-suc 2 k) (omega arith)

next_delay :
    (initial top k : ℕ) → min (min (initial * 2 ^ k) top * 2) top ≡ min (initial * 2 ^ suc k) top
next_delay initial top k = omega (arith, pow_step initial k)

min_pos : (a b : ℕ) → min_ℤ (pos a) (pos b) ≡ pos (min a b)
min_pos a b = elim (Bool-cases (ltb (b + 0) (a + 0))) [
  | inl e ↦ rw e (ap pos (omega (arith, test_lt e)))
  | inr e ↦ rw e (ap pos (omega (arith, test_le e)))
]

-- Doubling a duration of less than 2^62 nanoseconds does not wrap.
double : (d : ℕ) → d < 2 ^ 62 → scale (pos d) 2 ≡ pos (d * 2)
unfolding scale
double d h = (of_bits_small (d % 2 ^ 64 * 2 % 2 ^ 64) (d * 2) (omega arith)).1 (omega arith)

doubled_min : (d top : ℕ) → d < 2 ^ 62 → min_ℤ (scale (pos d) 2) (pos top) ≡ pos (min (d * 2) top)
doubled_min d top h = rw (double d h) (min_pos (d * 2) top)

module _ {W : Type 0} (contexts : Contexts W) (p : Probe contexts) (ctx : contexts.Ctx) where
  open contexts use {ctx_err}

  -- The context lives, and every check fails.
  pub record Fails : Type 0 where
    pub running : (w : W) → is_some (ctx_err ctx w) ≡ false
    pub rested : (d : ℤ) (w : W) → (p.sleep ctx d w).0 ≡ none
    pub failing : (w : W) → is_some (p.check ctx w).0 ≡ true

  note_failure_delay :
      (ready lost : Bool) (st : Status) (w : W)
      → let out = note_failure contexts ready lost st w in
        (out.value.retry_delay ≡ st.retry_delay) × (waits out.events ≡ [])
  unfolding note_failure
  note_failure_delay false lost st w = (refl, refl)
  note_failure_delay true false st w = (refl, refl)
  note_failure_delay true true st w = (refl, refl)

  after_sleep_waits :
      (next : Status → M W Progress) (now later : Status) (r : Option Error) (w : W)
      → r ≡ none
      → after_sleep contexts next now later r w ≡ next later w
  unfolding after_sleep
  after_sleep_waits next now later none w h = refl
  after_sleep_waits next now later (some e) w h = cc

  module _ (down : Fails) where
    failed_round-waits :
        (next : Status → M W Progress) (st : Status) (w : W)
        → (st' : Status) × (w' : W) × (st'.retry_delay ≡ min_ℤ (scale st.retry_delay 2) p.retry_max)
          × (waits (failed_round contexts p ctx next st w).events
              ≡ pos_part st.retry_delay ∷ waits (next st' w').events)
    unfolding failed_round
    failed_round-waits next st w =
        let noting = note_failure contexts st.ready st.lost st w in
        let (same, silent) = note_failure_delay st.ready st.lost st w in
        let st1 = noting.value in
        let st' = record st1 { retry_delay = min_ℤ (scale st1.retry_delay 2) p.retry_max } in
        let (r, w') = p.sleep ctx st1.retry_delay noting.world in
        (
          st',
          w',
          ap (λ d. min_ℤ (scale d 2) p.retry_max) same,
          waits-append noting.events _
              ∙ rw silent (
                  ap (λ out. pos_part st1.retry_delay ∷ waits out.events)
                    (after_sleep_waits next st1 st' r w' (down.rested st1.retry_delay noting.world))
                  ∙ ap (λ d. pos_part d ∷ waits (next st' w').events) same),
        )

    after_check_waits :
        (next : Status → M W Progress) (st : Status) (r : Option Error) (w : W)
        → is_some r ≡ true
        → after_check contexts p ctx true next st r w ≡ failed_round contexts p ctx next st w
    unfolding after_check
    after_check_waits next st none w h = cc
    after_check_waits next st (some e) w h = refl

    module _ (initial top : ℕ) (starts : p.retry_initial ≡ pos initial)
        (capped : p.retry_max ≡ pos top) where
      next_retry_delay :
          (k : ℕ) (d : ℤ)
          → top < 2 ^ 62
          → d ≡ pos (min (initial * 2 ^ k) top)
          → min_ℤ (scale d 2) p.retry_max ≡ pos (min (initial * 2 ^ suc k) top)
      next_retry_delay k d small h =
          rw (h, capped)
            (doubled_min (min (initial * 2 ^ k) top) top (omega arith)
              ∙ ap pos (next_delay initial top k))

      waits-rounds :
          (n k : ℕ) (st : Status) (w : W)
          → top < 2 ^ 62
          → st.retry_delay ≡ pos (min (initial * 2 ^ k) top)
          → waits (rounds contexts n p ctx true st w).events ≡ retry_delays initial top k n
      unfolding rounds
      waits-rounds zero k st w small h = refl
      waits-rounds (suc n) k st w small h =
          let (r, w1) = p.check ctx w in
          let (st', w', doubled, e) = failed_round-waits (rounds contexts n p ctx true) st w1 in
          rw (down.running w) (
            ap (λ out. waits out.events)
              (after_check_waits (rounds contexts n p ctx true) st r w1 (down.failing w))
            ∙ (e
                ∙ (ap (λ d. pos_part d ∷ waits (rounds contexts n p ctx true st' w').events) h
                    ∙ ap (λ ds. min (initial * 2 ^ k) top ∷ ds)
                        (waits-rounds n (suc k) st' w' small
                          (doubled ∙ next_retry_delay k st.retry_delay small h)))))

      -- While every check fails and the context lives, the waits of the probe double from its first
      -- delay up to its cap. Both are numbers of nanoseconds that are not negative, the first is at
      -- most the cap, and the cap is less than 2^62, so that doubling a delay does not wrap.
      pub waits-run :
          (n : ℕ) (w : W)
          → initial ≤ top
          → top < 2 ^ 62
          → waits (run contexts n p ctx true w).events ≡ retry_delays initial top 0 n
      unfolding run initial_status
      waits-run n w h small =
          waits-rounds n 0 (initial_status contexts p) w small (starts ∙ ap pos (omega arith))
