-- ===== src/Session/Callers/Turns.antt =====
-- One turn of a caller that has the mutex of a session, or waits for it (internal/rabbitmq/session.go).
use stocker_informer.Base.{
  ℕ, suc, ◌+◌, ◌≤◌, ◌≡◌, ◌⊎◌, refl, Bool, true, false, List, [], ◌∷◌, ◌++◌, Option, none, some, inl,
  inr, if◌then◌else◌, ◌==◌, arith,
}
use stocker_informer.Errors.{Error}
use stocker_informer.Contexts.{Contexts}
use stocker_informer.Session.Callers.{
  Request, acking, nacking, cancelling, closing, Pc, idle, waiting, locked, admitted, flagged,
  halfway, leaving, critical, History, Moved, moved, act, advance,
}

-- How many turns a caller needs at most to release the mutex, and the call that it is in.
abbrev pub distance : Pc → ℕ
distance idle = 0
distance (waiting r) = 0
distance (locked r) = 5
distance (admitted r) = 4
distance flagged = 3
distance (halfway e) = 2
distance (leaving r e) = 1

pub distance_pos : (p : Pc) → critical p ≡ true → 1 ≤ distance p
distance_pos idle c = cc
distance_pos (waiting r) c = cc
distance_pos (locked r) c = omega arith
distance_pos (admitted r) c = omega arith
distance_pos flagged c = omega arith
distance_pos (halfway e) c = omega arith
distance_pos (leaving r e) c = omega arith

pub distance-le : (p : Pc) → distance p ≤ 5
distance-le p = ground arith

abbrev pub asked : Pc → Request
asked (waiting r) = r
asked (locked r) = r
asked (admitted r) = r
asked (leaving r e) = r
asked p = closing

-- The turns of one caller.
abbrev pub turns_of : ℕ → List (ℕ × Request) → ℕ
turns_of i [] = 0
turns_of i ((j, r) ∷ turns) = (if i == j then 1 else 0) + turns_of i turns

module _ {W : Type 0} (contexts : Contexts W) where
  -- Caller `i` has left, and its call was answered.
  abbrev pub Left : History contexts → Pc → Moved contexts → Type 0
  Left h p m =
      (m.holder ≡ none)
      × (m.pc ≡ idle)
      × ((e : Option Error) × (m.history.answered ≡ h.answered ++ (asked p, e) ∷ []))

  pub record Nearer (h : History contexts) (o : Option ℕ) (p : Pc) (m : Moved contexts)
      : Type 0 where
    pub same_holder : m.holder ≡ o
    pub same_asked : asked m.pc ≡ asked p
    pub same_answered : m.history.answered ≡ h.answered
    pub nearer : suc (distance m.pc) ≤ distance p

  nearer :
      (h h' : History contexts) (o : Option ℕ) (p p' : Pc)
      → h'.answered ≡ h.answered
      → asked p' ≡ asked p
      → suc (distance p') ≤ distance p
      → Nearer h o p (moved contexts h' o p')
  nearer h h' o p p' a q d = record {
    same_holder = refl;
    same_asked = q;
    same_answered = a;
    nearer = d;
  }

  act-Nearer :
      (h : History contexts) (o : Option ℕ) (r : Request)
      → Nearer h o (admitted r) (moved contexts (act contexts r h).0 o (act contexts r h).1)
  unfolding act
  act-Nearer h o (acking tag) = nearer h _ o _ _ refl refl (omega arith)
  act-Nearer h o (nacking tag requeue) = nearer h _ o _ _ refl refl (omega arith)
  act-Nearer h o cancelling = nearer h _ o _ _ refl refl (omega arith)
  act-Nearer h o closing = nearer h _ o _ _ refl refl (omega arith)

  choice-Nearer :
      (b : Bool) (h : History contexts) (o : Option ℕ) (p : Pc) (m m' : Moved contexts)
      → Nearer h o p m
      → Nearer h o p m'
      → Nearer h o p (if b then m else m')
  choice-Nearer true h o p m m' x y = x
  choice-Nearer false h o p m m' x y = y

  pub own_turn :
      (r : Request) (i : ℕ) (h : History contexts) (o : Option ℕ) (p : Pc)
      → critical p ≡ true
      → Left h p (advance contexts r i h o p) ⊎ Nearer h o p (advance contexts r i h o p)
  unfolding advance
  own_turn r i h o idle c = cc
  own_turn _ i h o (waiting r) c = cc
  own_turn _ i h o (locked r) c = inr (
      choice-Nearer h.session.closed h o (locked r) _ _ (nearer h _ o _ _ refl refl (omega arith))
        (nearer h _ o _ _ refl refl (omega arith)))
  own_turn _ i h o (admitted r) c = inr (act-Nearer h o r)
  own_turn _ i h o flagged c = inr (nearer h _ o _ _ refl refl (omega arith))
  own_turn _ i h o (halfway e) c = inr (nearer h _ o _ _ refl refl (omega arith))
  own_turn _ i h o (leaving r e) c = inl (refl, refl, (e, refl))

  -- A caller that waits for a taken mutex changes nothing but its own place.
  pub other_turn :
      (r : Request) (i j : ℕ) (h : History contexts) (p : Pc)
      → critical p ≡ false
      → ((advance contexts r j h (some i) p).history ≡ h)
        × ((advance contexts r j h (some i) p).holder ≡ some i)
  unfolding advance
  other_turn r i j h idle c = (refl, refl)
  other_turn _ i j h (waiting r) c = (refl, refl)
  other_turn _ i j h (locked r) c = cc
  other_turn _ i j h (admitted r) c = cc
  other_turn _ i j h flagged c = cc
  other_turn _ i j h (halfway e) c = cc
  other_turn _ i j h (leaving r e) c = cc
