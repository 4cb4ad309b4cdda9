-- ===== src/Text/Contains.antt =====
-- When a text does not contain another one, and what keeps it so.
use stocker_informer.Base.{
  ℕ, ◌≡◌, refl, inl, inr, Bool, true, false, List, [], ◌∷◌, ◌++◌, arith, Text, All, Bool-cases,
  ◌==◌, ap,
}
use stocker_informer.Text.{
  is_space, drop_while, drop_while_end, trim_space, has_prefix, contains, cons_head, split,
}
use stocker_informer.Text.Trim.{drop_while_end_rest}

-- `strings.Contains(s, sub)` is false.
abbrev pub Free : Text → Text → Type 0
Free sub s = contains s sub ≡ false

has_prefix-append : (s t sub : Text) → has_prefix s sub ≡ true → has_prefix (s ++ t) sub ≡ true
unfolding has_prefix
has_prefix-append s t [] h = unfold has_prefix in refl
has_prefix-append [] t (d ∷ sub) h = cc
has_prefix-append (c ∷ s) t (d ∷ sub) h = ground (arith, has_prefix-append s t sub)

-- What holds of a text holds of each part that it begins with.
pub Free-append_left : (s t sub : Text) → Free sub (s ++ t) → Free sub s
unfolding contains
Free-append_left [] [] sub h = h
Free-append_left [] (d ∷ t) sub h = ground (arith, has_prefix-append [] (d ∷ t) sub)
Free-append_left (c ∷ s) t sub h =
    ground (arith, has_prefix-append (c ∷ s) t sub, Free-append_left s t sub)

pub Free-tail : (c : ℕ) (s sub : Text) → Free sub (c ∷ s) → Free sub s
unfolding contains
Free-tail c s sub h = ground arith

Free-drop_while : (p : ℕ → Bool) (s sub : Text) → Free sub s → Free sub (drop_while p s)
unfolding drop_while
Free-drop_while p [] sub h = h
Free-drop_while p (c ∷ s) sub h = elim (Bool-cases (p c)) [
  | inl e ↦ rw e (Free-drop_while p s sub (Free-tail c s sub h))
  | inr e ↦ rw e h
]

Free-drop_while_end : (p : ℕ → Bool) (s sub : Text) → Free sub s → Free sub (drop_while_end p s)
Free-drop_while_end p s sub h =
    let (t, e, _) = drop_while_end_rest p s in
    Free-append_left (drop_while_end p s) t sub (rw (← e) h)

pub Free-trim_space : (s sub : Text) → Free sub s → Free sub (trim_space s)
unfolding trim_space
Free-trim_space s sub h = Free-drop_while_end is_space _ sub (Free-drop_while is_space s sub h)

-- The first part of a split is a part that the text begins with.
abbrev Begins : Text → List Text → Type 0
Begins s [] = Unit
Begins s (p ∷ ps) = (t : Text) × (s ≡ p ++ t)

cons_head-Begins :
    (c : ℕ) (s : Text) (ps : List Text) → Begins s ps → Begins (c ∷ s) (cons_head c ps)
cons_head-Begins c s [] h = (s, refl)
cons_head-Begins c s (p ∷ ps) (t, e) = (t, ap (λ u. c ∷ u) e)

split-Begins : (s : Text) (sep : ℕ) → Begins s (split s sep)
unfolding split
split-Begins [] sep = ([], refl)
split-Begins (c ∷ s) sep = elim (Bool-cases (c == sep)) [
  | inl e ↦ rw e (c ∷ s, refl)
  | inr e ↦ rw e (cons_head-Begins c s (split s sep) (split-Begins s sep))
]

Free-cons_head :
    (c : ℕ) (s sub : Text) (ps : List Text)
    → Free sub (c ∷ s)
    → Begins (c ∷ s) (cons_head c ps)
    → All (Free sub) ps
    → All (Free sub) (cons_head c ps)
Free-cons_head c s sub [] h (t, e) k = (Free-append_left (c ∷ []) t sub (rw (← e) h), tt)
Free-cons_head c s sub (p ∷ ps) h (t, e) k = (Free-append_left (c ∷ p) t sub (rw (← e) h), k.1)

Free-nil : (s sub : Text) → Free sub s → Free sub []
Free-nil [] sub h = h
Free-nil (c ∷ s) sub h = Free-append_left [] (c ∷ s) sub h

pub Free-split : (s : Text) (sep : ℕ) (sub : Text) → Free sub s → All (Free sub) (split s sep)
unfolding split
Free-split [] sep sub h = (h, tt)
Free-split (c ∷ s) sep sub h = elim (Bool-cases (c == sep)) [
  | inl e ↦ rw e (Free-nil (c ∷ s) sub h, Free-split s sep sub (Free-tail c s sub h))
  | inr e ↦ rw e (
      Free-cons_head c s sub (split s sep) h
        (cons_head-Begins c s (split s sep) (split-Begins s sep))
        (Free-split s sep sub (Free-tail c s sub h)))
]
