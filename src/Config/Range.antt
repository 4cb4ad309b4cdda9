-- ===== src/Config/Range.antt =====
-- The ranges of the integer settings of internal/config/config.go, and of the durations made of
-- them.
use Prim.Native.String.{String}
use stocker_informer.Base.{
  ℕ, ◌*◌, ◌%◌, ◌^◌, ◌≤◌, ◌<◌, ◌≡◌, ◌↔◌, inl, inr, true, false, [], Option, none, some, Text, arith,
  Bool-cases, ltb, lt→ltb, le→ltb, is_empty, ap,
}
use stocker_informer.Int.{ℤ, pos, negsuc, of_bits, scale, second, ltb_ℤ}
use stocker_informer.Text.Cut.{atoi}
use stocker_informer.Config.Env.{Library, env, check_max, check_positive, positive_setting}

-- A positive number within its bound, if it has one.
abbrev pub InRange : Option ℕ → ℤ → Type 0
InRange none (pos n) = 1 ≤ n
InRange (some most) (pos n) = (1 ≤ n) × (n ≤ most)
InRange most (negsuc n) = ⊥

negative_test : (n : ℕ) → ltb_ℤ (pos 0) (negsuc n) ≡ true → ⊥
negative_test n h = ground arith

check_max-InRange :
    (name : String) (fallback : ℤ) (most : Option ℕ) (n : ℤ)
    → InRange most fallback
    → ltb_ℤ (pos 0) n ≡ true
    → InRange most (check_max name fallback most n).0
unfolding check_max
check_max-InRange name fallback none (pos n) h k = ground arith
check_max-InRange name fallback none (negsuc n) h k = absurd (negative_test n k)
check_max-InRange name fallback (some m) (pos n) h k = elim (Bool-cases (ltb_ℤ (pos m) (pos n))) [
  | inl e ↦ rw e h
  | inr e ↦ rw e (ground arith, ground arith)
]
check_max-InRange name fallback (some m) (negsuc n) h k = absurd (negative_test n k)

check_positive-InRange :
    (name : String) (fallback : ℤ) (most : Option ℕ) (raw : Text) (n : Option ℤ)
    → InRange most fallback
    → InRange most (check_positive name fallback most raw n).0
unfolding check_positive
check_positive-InRange name fallback most raw none h = h
check_positive-InRange name fallback most raw (some n) h = elim (Bool-cases (ltb_ℤ (pos 0) n)) [
  | inl e ↦ rw e (check_max-InRange name fallback most n h e)
  | inr e ↦ rw e h
]

pub positive_setting-InRange :
    {F : Type 0} (l : Library F) (name : String) (fallback : ℤ) (most : Option ℕ)
    → InRange most fallback
    → InRange most (positive_setting l name fallback most).0
unfolding positive_setting
positive_setting-InRange l name fallback most h = elim (Bool-cases (is_empty (env l name []))) [
  | inl e ↦ rw e h
  | inr e ↦ rw e (check_positive-InRange name fallback most _ (atoi (env l name [])) h)
]

pub of_bits_small : (n m : ℕ) → n < 2 ^ 63 → (of_bits n ≡ pos m) ↔ (n ≡ m)
of_bits_small n m h = rw (lt→ltb n (2 ^ 63) h) (λ e. cc, λ e. ap pos e)

of_bits_large : (n m : ℕ) → 2 ^ 63 ≤ n → of_bits n ≡ pos m → ⊥
of_bits_large n m h = rw (le→ltb n (2 ^ 63) h) (λ e. cc)

pub test_lt : {a b : ℕ} → ltb a b ≡ true → a < b
test_lt h = ground arith

pub test_le : {a b : ℕ} → ltb a b ≡ false → b ≤ a
test_le h = ground arith

abbrev product : ℕ → ℕ
product n = (n % 2 ^ 64 * second) % 2 ^ 64

-- A number of seconds is a duration without a wrap-around exactly up to 9223372036 of them.
pub scale-seconds_iff :
    (n : ℕ) → n < 2 ^ 63 → (scale (pos n) second ≡ pos (n * second)) ↔ (n ≤ 9_223_372_036)
unfolding scale
scale-seconds_iff n h = elim (Bool-cases (ltb (product n) (2 ^ 63))) [
  | inl e ↦
      let small = of_bits_small (product n) (n * second) (test_lt e) in
      (λ k. omega (arith, small.0 k, test_lt e), λ k. small.1 (omega arith))
  | inr e ↦ (
    λ k. absurd (of_bits_large (product n) (n * second) (test_le e) k),
    λ k. absurd (omega (arith, test_le e)),
  )
]

-- A duration of a number of seconds from 1 to a bound, in nanoseconds, without a wrap-around.
abbrev pub IsSeconds : ℕ → ℤ → Type 0
IsSeconds most d = (n : ℕ) × (1 ≤ n) × (n ≤ most) × (d ≡ pos (n * second))

pub scale-IsSeconds :
    (most : ℕ) (n : ℤ) → most ≤ 3600 → InRange (some most) n → IsSeconds most (scale n second)
scale-IsSeconds most (pos n) h (l, u) =
    (n, l, u, (scale-seconds_iff n (omega arith)).1 (omega arith))
scale-IsSeconds most (negsuc n) h x = elim x [ ]
