-- ===== src/Publisher/Attempts.antt =====
-- The attempts of publish in internal/messenger/gotosocial_publisher.go.
use stocker_informer.Base.{◌<◌, ◌⊎◌, ◌*◌, ◌^◌, ℕ, suc, ◌≤◌, List, [], ◌∷◌, Option, none, some, Text}
use stocker_informer.Errors.{Error, Result}
use stocker_informer.Contexts.{Contexts}
use stocker_informer.Effects.{Event, M, posted, slept}
use stocker_informer.Effects.Laws.{effects}
use stocker_informer.Publisher.{Publisher, error_of}

-- An answer with a status outside of 200 to 299, or none at all.
abbrev pub IsFailure : Option ℕ → Type 0
IsFailure none = Unit
IsFailure (some status) = (status < 200) ⊎ (300 ≤ status)

-- How `left` attempts from number `attempt` can go: a success ends them, and a failure is followed
-- by a wait that doubles from half a second and the next attempt, or by the error if it was the last.
pub data Attempts : ℕ → ℕ → Option Error → List Event → Type 0 where
  unsent : {left attempt : ℕ} {e : Error} → Attempts left attempt (some e) []
  accepted :
      {left attempt : ℕ}
      → (status : ℕ) → 200 ≤ status
      → status < 300
      → Attempts (suc left) attempt none (posted (some status) ∷ [])
  gave_up :
      {attempt : ℕ} {e : Error}
      → (answer : Option ℕ) → IsFailure answer
      → Attempts 1 attempt (some e) (posted answer ∷ [])
  again :
      {left attempt : ℕ} {r : Option Error} {es : List Event}
      → (answer : Option ℕ) → IsFailure answer
      → Attempts (suc left) (suc attempt) r es
      → Attempts (suc (suc left)) attempt r (posted answer ∷ slept (500_000_000 * 2 ^ attempt) ∷ es)

module _ {W : Type 0} (contexts : Contexts W) where
  open contexts use {Ctx}

  -- A computation that goes as `left` attempts from number `attempt`.
  abbrev Tries : ℕ → ℕ → M W (Result Text) → W → Type 0
  Tries left attempt m w = Attempts left attempt (error_of (m w).value) (effects (m w).events)
