-- ===== src/Text/Split.antt =====
-- The laws of splitting and joining at a separator.
use mathlib.Core.List.{cons-ne-nil}
use stocker_informer.Base.{
  ℕ, ◌≡◌, ◌≢◌, refl, inl, inr, false, List, [], ◌∷◌, ◌++◌, arith, Text, All, Bool-cases, ◌==◌,
  ==_iff,
}
use stocker_informer.Text.{cons_head, split, join}

abbrev pub Lacks : ℕ → Text → Type 0
Lacks sep = All (λ c. c ≢ sep)

pub ==_of_ne : (c d : ℕ) → c ≢ d → (c == d) ≡ false
==_of_ne c d h = ground arith

pub split-ne-nil : (s : Text) (sep : ℕ) → split s sep ≢ []
unfolding split
split-ne-nil [] sep = λ h. cc
split-ne-nil (c ∷ s) sep = elim (Bool-cases (c == sep)) [
  | inl e ↦ rw e (λ h. cc)
  | inr e ↦ rw e (cons_head-ne-nil c (split s sep))
]
  where
    cons_head-ne-nil : (c : ℕ) (ps : List Text) → cons_head c ps ≢ []
    cons_head-ne-nil c [] = λ h. cc
    cons_head-ne-nil c (p ∷ ps) = λ h. cc

join-cons_head : (c : ℕ) (ps : List Text) (sep : ℕ) → join (cons_head c ps) sep ≡ c ∷ join ps sep
unfolding join
join-cons_head c [] sep = refl
join-cons_head c (p ∷ []) sep = refl
join-cons_head c (p ∷ q ∷ ps) sep = refl

join-nil_cons : (ps : List Text) (sep : ℕ) → ps ≢ [] → join ([] ∷ ps) sep ≡ sep ∷ join ps sep
unfolding join
join-nil_cons [] sep h = absurd (h refl)
join-nil_cons (p ∷ ps) sep h = refl

-- Joining the parts of a split gives the text back.
pub join-split : (s : Text) (sep : ℕ) → join (split s sep) sep ≡ s
unfolding split
join-split [] sep = unfold join in refl
join-split (c ∷ s) sep = elim (Bool-cases (c == sep)) [
  | inl e ↦
      rw (e, join-nil_cons (split s sep) sep (split-ne-nil s sep), join-split s sep)
        (rw ((==_iff c sep).0 e))
  | inr e ↦ rw (e, join-cons_head c (split s sep) sep, join-split s sep)
]

-- A separator ends the first part.
pub split-append : (p s : Text) (sep : ℕ) → Lacks sep p → split (p ++ sep ∷ s) sep ≡ p ∷ split s sep
unfolding split
split-append [] s sep h = rw ((==_iff sep sep).1 refl)
split-append (c ∷ p) s sep h = rw (==_of_ne c sep h.0, split-append p s sep h.1)

pub split_of_Lacks : (p : Text) (sep : ℕ) → Lacks sep p → split p sep ≡ p ∷ []
unfolding split
split_of_Lacks [] sep h = refl
split_of_Lacks (c ∷ p) sep h = rw (==_of_ne c sep h.0, split_of_Lacks p sep h.1)

-- Splitting a join gives the parts back.
pub split-join :
    (ps : List Text) (sep : ℕ) → ps ≢ [] → All (Lacks sep) ps → split (join ps sep) sep ≡ ps
unfolding join
split-join [] sep h hs = absurd (h refl)
split-join (p ∷ []) sep h hs = split_of_Lacks p sep hs.0
split-join (p ∷ q ∷ ps) sep h hs =
    rw
      (split-append p (join (q ∷ ps) sep) sep hs.0, split-join (q ∷ ps) sep (cons-ne-nil q ps) hs.1)

module _ {κ} (P : ℕ → Type κ) where
  All-cons_head : (c : ℕ) (ps : List Text) → P c → All (All P) ps → All (All P) (cons_head c ps)
  All-cons_head c [] h hs = ((h, tt), tt)
  All-cons_head c (p ∷ ps) h hs = ((h, hs.0), hs.1)

  -- A property of all the runes of a text is one of all the runes of its parts.
  pub All-split : (s : Text) (sep : ℕ) → All P s → All (All P) (split s sep)
  unfolding split
  All-split [] sep h = (tt, tt)
  All-split (c ∷ s) sep h = elim (Bool-cases (c == sep)) [
    | inl e ↦ rw e (tt, All-split s sep h.1)
    | inr e ↦ rw e (All-cons_head c (split s sep) h.0 (All-split s sep h.1))
  ]

-- No part of a split holds the separator.
pub split-Lacks : (s : Text) (sep : ℕ) → All (Lacks sep) (split s sep)
unfolding split
split-Lacks [] sep = (tt, tt)
split-Lacks (c ∷ s) sep = elim (Bool-cases (c == sep)) [
  | inl e ↦ rw e (tt, split-Lacks s sep)
  | inr e ↦ rw e (
      All-cons_head (λ d. d ≢ sep) c (split s sep) (λ same. cc ((==_iff c sep).1 same))
        (split-Lacks s sep))
]
