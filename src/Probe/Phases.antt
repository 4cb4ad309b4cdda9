-- ===== src/Probe/Phases.antt =====
-- The connectivity that the probe of internal/rabbitmq/probe.go reports, as a machine of its own:
-- the log lines move it, and no line is allowed twice in a row.
use package.text.Mathlib.Text.{◌==◌ as str_eq}
use stocker_informer.Base.{
  ℕ, suc, ◌+◌, ◌≡◌, refl, ◌∙◌, Bool, true, false, List, [], ◌∷◌, ◌++◌, Option, none, some, arith,
  if◌then◌else◌, ap,
}
use stocker_informer.Effects.{Event, logged, became_ready}
use stocker_informer.Health.{ready_after}
use stocker_informer.Probe.{Status}

pub data Phase : Type 0 where
  starting up down : Phase

abbrev verified : Phase → Option Phase
verified starting = some up
verified p = none

abbrev loses : Phase → Option Phase
loses up = some down
loses p = none

abbrev restores : Phase → Option Phase
restores down = some up
restores p = none

abbrev pub phase_step : Phase → Event → Option Phase
phase_step p (logged level line) =
    if str_eq line "rabbitmq connectivity verified"
    then verified p
    else if str_eq line "rabbitmq connectivity lost"
    then loses p
    else if str_eq line "rabbitmq connectivity restored"
    then restores p
    else some p
phase_step p e = some p

abbrev phase_then : Option Phase → (Phase → Option Phase) → Option Phase
phase_then none f = none
phase_then (some p) f = f p

-- The phase after some events; `none` if one of them was not allowed.
abbrev pub phases : Phase → List Event → Option Phase
phases p [] = some p
phases p (e ∷ es) = phase_then (phase_step p e) (λ q. phases q es)

pub phases-append :
    (p q : Phase) (xs ys : List Event) → phases p xs ≡ some q → phases p (xs ++ ys) ≡ phases q ys
phases-append p q [] ys h = ap (λ r. phases r ys) (cc)
phases-append p q (e ∷ xs) ys h = go (phase_step p e) h (λ r. phases-append r q xs ys)
  where
    go :
        (o : Option Phase)
        → phase_then o (λ r. phases r xs) ≡ some q
        → ((r : Phase) → phases r xs ≡ some q → phases r (xs ++ ys) ≡ phases q ys)
        → phase_then o (λ r. phases r (xs ++ ys)) ≡ phases q ys
    go none k f = cc
    go (some r) k f = f r k

-- The phase that the probe's variables stand for.
abbrev pub phase : Bool → Bool → Phase
phase false lost = starting
phase true false = up
phase true true = down

-- The calls of the readiness callback.
abbrev pub callbacks : List Event → ℕ
callbacks [] = 0
callbacks (became_ready ∷ es) = suc (callbacks es)
callbacks (e ∷ es) = callbacks es

pub callbacks-append : (xs ys : List Event) → callbacks (xs ++ ys) ≡ callbacks xs + callbacks ys
callbacks-append [] ys = omega arith
callbacks-append (became_ready ∷ xs) ys = omega (arith, callbacks-append xs ys)
callbacks-append (e ∷ xs) ys = callbacks-append xs ys

pub ready_after-append :
    (flag : Bool) (xs ys : List Event)
    → ready_after flag (xs ++ ys) ≡ ready_after (ready_after flag xs) ys
unfolding ready_after
ready_after-append flag [] ys = refl
ready_after-append flag (became_ready ∷ xs) ys = ready_after-append true xs ys
ready_after-append flag (e ∷ xs) ys = ready_after-append flag xs ys

abbrev pub as_number : Bool → ℕ
as_number true = 1
as_number false = 0

-- A probe that is not ready has lost nothing.
abbrev pub IsSound : Status → Type 0
IsSound st = st.ready ≡ false → st.lost ≡ false

-- How the variables and the events of a stretch of the loop go together.
pub record Advances (st st' : Status) (es : List Event) : Type 0 where
  pub sound : IsSound st'
  pub counted : callbacks es + as_number st.ready ≡ as_number st'.ready
  pub flagged : ready_after st.ready es ≡ st'.ready
  pub phased : phases (phase st.ready st.lost) es ≡ some (phase st'.ready st'.lost)

pub Advances-append :
    (st st1 st2 : Status) (xs ys : List Event)
    → Advances st st1 xs
    → Advances st1 st2 ys
    → Advances st st2 (xs ++ ys)
Advances-append st st1 st2 xs ys a b = record {
  sound = b.sound;
  counted = omega (arith, a.counted, b.counted, callbacks-append xs ys);
  flagged = ready_after-append st.ready xs ys ∙ (rw (a.flagged) (b.flagged));
  phased =
      phases-append (phase st.ready st.lost) (phase st1.ready st1.lost) xs ys a.phased ∙ b.phased;
}
