-- ===== src/Backoff.antt =====
-- The reconnect backoff of internal/rabbitmq/consumer.go. Durations are in nanoseconds.
use stocker_informer.Base.{
  ℕ, suc, ◌-◌, ◌*◌, ◌^◌, ◌≤◌, ◌≡◌, min, refl, ltb, leb, if◌then◌else◌, arith, zero,
}
use stocker_informer.Int.{second}

abbrev pub backoff_initial : ℕ
backoff_initial = second

abbrev pub backoff_max : ℕ
backoff_max = 30 * second

-- `failures` counts from 1 and only grows, so it is a number that is not negative.
unfoldable pub backoff_delay : ℕ → ℕ
backoff_delay failures =
    if ltb failures 2
    then backoff_initial
    else if leb 6 failures
    then backoff_max
    else backoff_initial * 2 ^ (failures - 1)

one-le-pow : (k : ℕ) → 1 ≤ 2 ^ k
one-le-pow zero = omega arith
one-le-pow (suc k) = omega (arith, one-le-pow k)

-- The delay before the n-th consecutive retry doubles from one second and is capped at 30 seconds.
pub backoff_delay_doubling :
    (n : ℕ) → backoff_delay (suc n) ≡ min (backoff_initial * 2 ^ n) backoff_max
unfolding backoff_delay
backoff_delay_doubling zero = refl
backoff_delay_doubling (suc zero) = refl
backoff_delay_doubling (suc (suc zero)) = refl
backoff_delay_doubling (suc (suc (suc zero))) = refl
backoff_delay_doubling (suc (suc (suc (suc zero)))) = refl
backoff_delay_doubling (suc (suc (suc (suc (suc k))))) = ground (arith, one-le-pow k)
