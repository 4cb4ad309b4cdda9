-- ===== src/Session/Callers/Progress.antt =====
-- How long a caller stays in the mutex of a session (internal/rabbitmq/session.go).
use stocker_informer.Base.{
  ℕ, suc, ◌≤◌, ◌≡◌, ◌≢◌, refl, sym, subst, ap, ◌∙◌, false, Bool-cases, List, [], ◌∷◌, ◌++◌, Option,
  none, some, inl, inr, arith,
}
use mathlib.Core.Option.{some-injective}
use native.Mathlib.Decide.{ℕ_discrete}
use stocker_informer.Errors.{Error}
use stocker_informer.Contexts.{Contexts}
use stocker_informer.Session.{Session}
use stocker_informer.Session.Callers.{
  Request, idle, critical, History, System, advance, turn, interleave, begin,
}
use stocker_informer.Session.Callers.Invariant.{
  moves_to-eq, moves_to-ne, Inv, turn-Inv, interleave-Inv, begin-Inv,
}
use stocker_informer.Session.Callers.Turns.{
  distance, distance_pos, distance-le, asked, turns_of, Left, own_turn, other_turn,
}

module _ {W : Type 0} (contexts : Contexts W) where
  -- Some first part of the turns brings caller `i` out of the mutex, with its call answered.
  pub record Freed (s : System contexts) (i : ℕ) (turns : List (ℕ × Request)) : Type 0 where
    pub before : List (ℕ × Request)
    pub after : List (ℕ × Request)
    pub split : turns ≡ before ++ after
    pub answer : Option Error
    pub free : (interleave contexts s before).holder ≡ none
    pub back : (interleave contexts s before).pc i ≡ idle
    pub answered :
        (interleave contexts s before).history.answered
        ≡ s.history.answered ++ (asked (s.pc i), answer) ∷ []

  module _ (s : System contexts) (i : ℕ) (turns : List (ℕ × Request)) where
    after_turn :
        (j : ℕ) (r : Request)
        → (turn contexts s (j, r)).history.answered ≡ s.history.answered
        → asked ((turn contexts s (j, r)).pc i) ≡ asked (s.pc i)
        → Freed (turn contexts s (j, r)) i turns
        → Freed s i ((j, r) ∷ turns)
    unfolding interleave
    after_turn j r a q f = record {
      before = (j, r) ∷ f.before;
      after = f.after;
      split = ap (λ ts. (j, r) ∷ ts) f.split;
      answer = f.answer;
      free = f.free;
      back = f.back;
      answered = f.answered ∙ (rw (a, q) refl);
    }

    at_once :
        (r : Request)
        → Left contexts s.history (s.pc i) (advance contexts r i s.history s.holder (s.pc i))
        → Freed s i ((i, r) ∷ turns)
    unfolding interleave turn
    at_once r (free, back, (e, a)) = record {
      before = (i, r) ∷ [];
      after = turns;
      split = refl;
      answer = e;
      free = free;
      back = moves_to-eq s.pc i _ ∙ back;
      answered = a;
    }

    module _ (h₀ : History contexts) (inv : Inv contexts h₀ s) (held : s.holder ≡ some i)
        (rest : (t : System contexts)
          → Inv contexts h₀ t
          → t.holder ≡ some i
          → distance (t.pc i) ≤ turns_of i turns
          → Freed t i turns) where
      own_frees :
          (r : Request) → distance (s.pc i) ≤ suc (turns_of i turns) → Freed s i ((i, r) ∷ turns)
      unfolding turn
      own_frees r d =
          elim (own_turn contexts r i s.history s.holder (s.pc i) (inv.owned i held).inside) [
            | inl left ↦ at_once r left
            | inr n ↦
                after_turn i r n.same_answered (ap asked (moves_to-eq s.pc i _) ∙ n.same_asked) (
                  rest (turn contexts s (i, r)) (turn-Inv contexts h₀ s (i, r) inv)
                    (n.same_holder ∙ held)
                    (rw (moves_to-eq s.pc i (advance contexts r i s.history s.holder (s.pc i)).pc)
                      (omega (arith, n.nearer))))
          ]

      waits_outside : (j : ℕ) → i ≢ j → critical (s.pc j) ≡ false
      waits_outside j ne = elim (Bool-cases (critical (s.pc j))) [
        | inl c ↦ absurd (ne (some-injective i j (sym held ∙ inv.owner j c)))
        | inr c ↦ c
      ]

      other_frees :
          (j : ℕ) (r : Request)
          → i ≢ j
          → distance (s.pc i) ≤ turns_of i turns
          → Freed s i ((j, r) ∷ turns)
      unfolding turn
      other_frees j r ne d =
          let (same, kept) =
            subst
              (λ o.
                ((advance contexts r j s.history o (s.pc j)).history ≡ s.history)
                × ((advance contexts r j s.history o (s.pc j)).holder ≡ some i))
              (sym held) (other_turn contexts r i j s.history (s.pc j) (waits_outside j ne)) in
          let p =
            moves_to-ne s.pc j i (advance contexts r j s.history s.holder (s.pc j)).pc
              (λ e. ne (sym e)) in
          after_turn j r (ap (λ h. h.answered) same) (ap asked p)
            (rest (turn contexts s (j, r)) (turn-Inv contexts h₀ s (j, r) inv) kept (rw p d))

  frees :
      (h₀ : History contexts) (i : ℕ) (turns : List (ℕ × Request)) (s : System contexts)
      → Inv contexts h₀ s
      → s.holder ≡ some i
      → distance (s.pc i) ≤ turns_of i turns
      → Freed s i turns
  frees h₀ i [] s inv held d =
      absurd (omega (arith, distance_pos (s.pc i) (inv.owned i held).inside))
  frees h₀ i ((j, r) ∷ turns) s inv held d = elim (ℕ_discrete i j) [
    | yes e ↦
        subst (λ k. Freed s i ((k, r) ∷ turns)) e
          (own_frees s i turns h₀ inv held (frees h₀ i turns) r (ground (arith, d)))
    | no ne ↦ other_frees s i turns h₀ inv held (frees h₀ i turns) j r ne (ground (arith, d))
  ]

  -- Whoever is between the lock and the unlock of the session's mutex gets out. Let callers have
  -- taken any steps in any order, and let `i` have the mutex: once `i` has had five more turns,
  -- among any turns of the others, there was a moment at which it had released the mutex and
  -- returned from its call, and its answer is the only one that was given in between.
  pub interleave-Freed :
      (sess : Session contexts) (w : W) (turns : List (ℕ × Request)) (i : ℕ)
      → (interleave contexts (begin contexts sess w) turns).holder ≡ some i
      → (more : List (ℕ × Request)) → 5 ≤ turns_of i more
      → Freed (interleave contexts (begin contexts sess w) turns) i more
  interleave-Freed sess w turns i held more enough =
      let s = interleave contexts (begin contexts sess w) turns in
      frees _ i more s (interleave-Inv contexts _ _ turns (begin-Inv contexts sess w)) held
        (omega (arith, distance-le (s.pc i)))
