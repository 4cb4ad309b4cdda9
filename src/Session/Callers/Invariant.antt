-- ===== src/Session/Callers/Invariant.antt =====
-- What holds of callers that interleave on one session (internal/rabbitmq/session.go).
use mathlib.Core.Option.{some-injective}
use native.Mathlib.Decide.{ℕ_discrete}
use stocker_informer.Base.{
  ==_iff, ℕ, ◌≡◌, ◌≢◌, refl, sym, ◌∙◌, subst, Bool, true, false, List, [], ◌∷◌, append_assoc,
  Option, none, some, arith, if◌then◌else◌,
}
use stocker_informer.Errors.{Error}
use stocker_informer.Contexts.{Contexts}
use stocker_informer.Session.{Session}
use stocker_informer.Session.Callers.{
  Request, Pc, idle, waiting, locked, admitted, flagged, halfway, leaving, refusal, critical,
  moves_to, is_free, History, System, finished, Moved, moved, advance, turn, interleave,
  open_history, begin, serve_all,
}
use stocker_informer.Session.Callers.Finish.{
  finish, Stage, IsServed, serve-closed, act-finish, act-critical, act-Stage, serve-IsServed,
}

pub moves_to-eq : (pc : ℕ → Pc) (i : ℕ) (p : Pc) → moves_to pc i p i ≡ p
moves_to-eq pc i p = rw ((==_iff i i).1 refl) refl

pub moves_to-ne : (pc : ℕ → Pc) (i j : ℕ) (p : Pc) → i ≢ j → moves_to pc i p j ≡ pc j
moves_to-ne pc i j p h = ground arith

free_holder : (o : Option ℕ) → is_free o ≡ true → o ≡ none
free_holder none e = refl
free_holder (some i) e = cc

-- What holds of the place that a caller has gone to, and of the places of the others.
moves_to-each {κ} :
    (P : ℕ → Pc → Type κ) (pc : ℕ → Pc) (i : ℕ) (p : Pc)
    → P i p
    → ((j : ℕ) → i ≢ j → P j (pc j))
    → (j : ℕ) → P j (moves_to pc i p j)
moves_to-each P pc i p here there j = elim (ℕ_discrete i j) [
  | yes e ↦ subst (λ k. P k (moves_to pc i p k)) e (subst (P i) (sym (moves_to-eq pc i p)) here)
  | no ne ↦ subst (P j) (sym (moves_to-ne pc i j p ne)) (there j ne)
]

module _ {W : Type 0} (contexts : Contexts W) where
  -- What the caller who has the mutex guarantees.
  pub record Owns (h₀ h : History contexts) (p : Pc) : Type 0 where
    pub inside : critical p ≡ true
    pub stage : Stage contexts h p
    pub served : IsServed contexts h₀ (finish contexts h p)

  pub record Inv (h₀ : History contexts) (s : System contexts) : Type 0 where
    pub owner : (i : ℕ) → critical (s.pc i) ≡ true → s.holder ≡ some i
    pub owned : (i : ℕ) → s.holder ≡ some i → Owns h₀ s.history (s.pc i)
    pub free : s.holder ≡ none → IsServed contexts h₀ s.history

  abbrev placed : System contexts → ℕ → Moved contexts → System contexts
  placed s i m = record { history = m.history; holder = m.holder; pc = moves_to s.pc i m.pc }

  module _ (h₀ : History contexts) (s : System contexts) (inv : Inv h₀ s) (i : ℕ) where
    open inv use {owner, owned, free}

    other_holder :
        (h : History contexts) (j : ℕ)
        → s.holder ≡ some i
        → i ≢ j
        → s.holder ≡ some j
        → Owns h₀ h (s.pc j)
    other_holder h j held ne q = absurd (ne (some-injective i j (sym held ∙ q)))

    -- The caller with the mutex keeps it.
    inside-Inv :
        (h : History contexts) (p : Pc)
        → s.holder ≡ some i
        → Owns h₀ h p
        → Inv h₀ (placed s i (moved contexts h s.holder p))
    inside-Inv h p held owns = record {
      owner =
          moves_to-each (λ j q. critical q ≡ true → s.holder ≡ some j) s.pc i p (λ c. held)
            (λ j ne. owner j);
      owned =
          moves_to-each (λ j q. s.holder ≡ some j → Owns h₀ h q) s.pc i p (λ q. owns)
            (λ j. other_holder h j held);
      free = λ q. cc;
    }

    -- A caller outside of the mutex stays outside.
    outside-Inv :
        (p : Pc)
        → critical (s.pc i) ≡ false
        → critical p ≡ false
        → Inv h₀ (placed s i (moved contexts s.history s.holder p))
    outside-Inv p out out' = record {
      owner =
          moves_to-each (λ j q. critical q ≡ true → s.holder ≡ some j) s.pc i p (λ c. cc)
            (λ j ne. owner j);
      owned =
          moves_to-each (λ j q. s.holder ≡ some j → Owns h₀ s.history q) s.pc i p
            (λ q. let c = (owned i q).inside in cc) (λ j ne. owned j);
      free = free;
    }

    lock-Inv :
        (r : Request)
        → s.holder ≡ none
        → Inv h₀ (placed s i (moved contexts s.history (some i) (locked r)))
    lock-Inv r e = record {
      owner =
          moves_to-each (λ j q. critical q ≡ true → some i ≡ some j) s.pc i (locked r) (λ c. refl)
            (λ j ne c. let q = owner j c in cc);
      owned =
          moves_to-each (λ j q. some i ≡ some j → Owns h₀ s.history q) s.pc i (locked r)
            (λ q. record {
              inside = refl;
              stage = tt;
              served = serve-IsServed contexts h₀ s.history r (free e);
            })
            (λ j ne q. absurd (ne (some-injective i j q)));
      free = λ q. cc;
    }

    unlock-Inv :
        (r : Request) (e : Option Error)
        → s.holder ≡ some i
        → Owns h₀ s.history (leaving r e)
        → Inv h₀ (placed s i (moved contexts (finished contexts s.history r e) none idle))
    unlock-Inv r e held owns = record {
      owner =
          moves_to-each (λ j q. critical q ≡ true → none ≡ some j) s.pc i idle (λ c. cc)
            (λ j ne c. absurd (ne (some-injective i j (sym held ∙ owner j c))));
      owned =
          moves_to-each (λ j q. none ≡ some j → Owns h₀ (finished contexts s.history r e) q) s.pc i
            idle (λ q. cc) (λ j ne q. cc);
      free = λ q. owns.served;
    }

    -- A step within the mutex does not change what its rest will have done.
    stays :
        (p p' : Pc) (h : History contexts)
        → s.pc i ≡ p
        → critical p ≡ true
        → critical p' ≡ true
        → (Stage contexts s.history p → Stage contexts h p')
        → (Stage contexts s.history p → finish contexts h p' ≡ finish contexts s.history p)
        → Inv h₀ (placed s i (moved contexts h s.holder p'))
    stays p p' h at c c' st same =
        let held = owner i (rw at c) in
        let owns = subst (Owns h₀ s.history) at (owned i held) in
        inside-Inv h p' held (record {
          inside = c';
          stage = st owns.stage;
          served = subst (IsServed contexts h₀) (sym (same owns.stage)) owns.served;
        })

    choice-Inv :
        (b : Bool) (m m' : Moved contexts)
        → (b ≡ true → Inv h₀ (placed s i m))
        → (b ≡ false → Inv h₀ (placed s i m'))
        → Inv h₀ (placed s i (if b then m else m'))
    choice-Inv true m m' t f = t refl
    choice-Inv false m m' t f = f refl

    advance-Inv :
        (r : Request) (p : Pc)
        → s.pc i ≡ p
        → Inv h₀ (placed s i (advance contexts r i s.history s.holder p))
    unfolding advance
    advance-Inv r idle at = outside-Inv (waiting r) (rw at refl) refl
    advance-Inv _ (waiting r) at =
        choice-Inv (is_free s.holder) _ _ (λ e. lock-Inv r (free_holder s.holder e))
          (λ e. outside-Inv (waiting r) (rw at refl) refl)
    advance-Inv _ (locked r) at =
        choice-Inv s.history.session.closed _ _
          (λ e.
            stays (locked r) (leaving r (refusal r)) s.history at refl refl (λ _. tt)
              (λ _. sym (serve-closed contexts s.history r e)))
          (λ e. stays (locked r) (admitted r) s.history at refl refl (λ _. e) (λ _. refl))
    advance-Inv _ (admitted r) at =
        stays (admitted r) _ _ at refl (act-critical contexts s.history r)
          (λ _. act-Stage contexts s.history r) (λ e. act-finish contexts s.history r e)
    advance-Inv _ flagged at = stays flagged _ _ at refl refl (λ _. tt) (λ _. simp append_assoc)
    advance-Inv _ (halfway ch_err) at =
        stays (halfway ch_err) _ _ at refl refl (λ _. tt) (λ _. refl)
    advance-Inv _ (leaving r e) at =
        let held = owner i (rw at refl) in
        unlock-Inv r e held (subst (Owns h₀ s.history) at (owned i held))

  pub turn-Inv :
      (h₀ : History contexts) (s : System contexts) (t : ℕ × Request)
      → Inv h₀ s
      → Inv h₀ (turn contexts s t)
  unfolding turn
  turn-Inv h₀ s (i, r) inv = advance-Inv h₀ s inv i r (s.pc i) refl

  pub interleave-Inv :
      (h₀ : History contexts) (s : System contexts) (turns : List (ℕ × Request))
      → Inv h₀ s
      → Inv h₀ (interleave contexts s turns)
  unfolding interleave
  interleave-Inv h₀ s [] inv = inv
  interleave-Inv h₀ s (t ∷ turns) inv =
      interleave-Inv h₀ (turn contexts s t) turns (turn-Inv h₀ s t inv)

  pub begin-Inv :
      (sess : Session contexts) (w : W) → Inv (open_history contexts sess w) (begin contexts sess w)
  unfolding serve_all
  begin-Inv sess w = record { owner = λ i c. cc; owned = λ i q. cc; free = λ q. refl }
