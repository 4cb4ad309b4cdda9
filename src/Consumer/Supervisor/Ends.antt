-- ===== src/Consumer/Supervisor/Ends.antt =====
-- How a run of Run of internal/rabbitmq/consumer.go ends, and how its parts are put together.
use stocker_informer.Base.{ℕ, ◌+◌, ◌≡◌, List, ◌++◌, Option, none, some, arith, All, All-append}
use stocker_informer.Errors.{Error}
use stocker_informer.Effects.{Event}
use stocker_informer.Effects.Quiet.{
  tally, tally-append, tally-quiet, IsOpen, IsBounded, AllQuiet, AllQuiet-IsBounded,
}
use stocker_informer.Consumer.Supervisor.{Ran}

-- Some events close `n` connections and `n` channels more than they open.
pub record Releases (n : ℕ) (es : List Event) : Type 0 where
  pub connections : (tally es).connections_closed ≡ (tally es).connections_opened + n
  pub channels : (tally es).channels_closed ≡ (tally es).channels_opened + n

-- A result of Run and the events that led to it, where `n` sessions were open before: each wait is
-- bounded, and if the run has ended then its result is nil and nothing is left open.
abbrev pub Ends : ℕ → Ran → List Event → Type 0
Ends n value es =
    All IsBounded es × ((r : Option Error) → value ≡ some r → (r ≡ none) × Releases n es)

pub Ends-append :
    (n : ℕ) (value : Ran) (xs ys : List Event)
    → All IsBounded xs
    → IsOpen n xs
    → Ends n value ys
    → Ends 0 value (xs ++ ys)
Ends-append n value xs ys b o (b', ends) = (
  All-append IsBounded xs ys b b',
  λ r h.
      let (same, released) = ends r h in
      (
        same,
        record {
          connections =
              rw (tally-append xs ys) (omega (arith, o.connections, released.connections));
          channels = rw (tally-append xs ys) (omega (arith, o.channels, released.channels));
        },
      ),
)

pub Ends-quiet :
    (n : ℕ) (value : Ran) (xs ys : List Event)
    → AllQuiet xs
    → Ends n value ys
    → Ends n value (xs ++ ys)
Ends-quiet n value xs ys q (b, ends) = (
  All-append IsBounded xs ys (AllQuiet-IsBounded xs q) b,
  λ r h.
      let (same, released) = ends r h in
      (
        same,
        record {
          connections =
              rw (tally-append xs ys, tally-quiet xs q) (omega (arith, released.connections));
          channels = rw (tally-append xs ys, tally-quiet xs q) (omega (arith, released.channels));
        },
      ),
)
