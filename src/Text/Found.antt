-- ===== src/Text/Found.antt =====
-- Where in a text another one is found: in which of its parts, and within its white space.
use stocker_informer.Base.{
  ℕ, ◌≡◌, refl, sym, ◌∙◌, ap, inl, inr, Bool, false, true, List, [], ◌∷◌, Text, Bool-cases, ◌==◌,
  arith, All, subst,
}
use stocker_informer.Text.{
  is_space, drop_while, push_kept, drop_while_end, trim_space, cons_head, split, has_prefix,
  contains,
}
use stocker_informer.Text.Trim.{push_kept_of_kept}
use stocker_informer.Text.Split.{Lacks, ==_of_ne}
use stocker_informer.Text.Contains.{Free, Free-tail}

-- Nothing that begins a longer text, nor anything in its rest.
Free-cons : (c : ℕ) (s sub : Text) → has_prefix (c ∷ s) sub ≡ false → Free sub s → Free sub (c ∷ s)
unfolding contains
Free-cons c s sub h k = ground arith

Free-head : (c : ℕ) (s sub : Text) → Free sub (c ∷ s) → has_prefix (c ∷ s) sub ≡ false
unfolding contains
Free-head c s sub h = ground arith

-- The contrapositive of a test that carries over.
false_of : (a b : Bool) → (a ≡ true → b ≡ true) → b ≡ false → a ≡ false
false_of true b h e = cc (h refl)
false_of false b h e = refl

drop_while_space :
    (c : ℕ) (s : Text) → is_space c ≡ true → drop_while is_space (c ∷ s) ≡ drop_while is_space s
unfolding drop_while
drop_while_space c s h = rw h

drop_while_kept : (c : ℕ) (s : Text) → is_space c ≡ false → drop_while is_space (c ∷ s) ≡ c ∷ s
unfolding drop_while
drop_while_kept c s h = rw h

module _ (d : ℕ) (sub : Text) where
  head_of :
      (c : ℕ) (s : Text) → has_prefix (c ∷ s) (d ∷ sub) ≡ true → (c ≡ d) × (has_prefix s sub ≡ true)
  unfolding has_prefix
  head_of c s h = ground arith

  not_head :
      (c : ℕ) (s : Text)
      → is_space d ≡ false
      → is_space c ≡ true
      → has_prefix (c ∷ s) (d ∷ sub) ≡ false
  not_head c s v e = false_of _ false (λ k. cc (ap is_space (head_of c s k).0)) refl

  Free-of_drop_while :
      (s : Text) → is_space d ≡ false → Free (d ∷ sub) (drop_while is_space s) → Free (d ∷ sub) s
  Free-of_drop_while [] v h = unfold drop_while in h
  Free-of_drop_while (c ∷ s) v h = elim (Bool-cases (is_space c)) [
    | inl e ↦
        Free-cons c s (d ∷ sub) (not_head c s v e)
          (Free-of_drop_while s v (subst (Free (d ∷ sub)) (drop_while_space c s e) h))
    | inr e ↦ subst (Free (d ∷ sub)) (drop_while_kept c s e) h
  ]

has_prefix-trim_end :
    (s sub : Text)
    → All (λ c. is_space c ≡ false) sub
    → has_prefix s sub ≡ true
    → has_prefix (drop_while_end is_space s) sub ≡ true
unfolding drop_while_end has_prefix
has_prefix-trim_end s [] v h = unfold has_prefix in refl
has_prefix-trim_end [] (d ∷ sub) v h = cc
has_prefix-trim_end (c ∷ s) (d ∷ sub) v h =
    rw (push_kept_of_kept is_space c (drop_while_end is_space s) (ground (arith, v.0)))
      (ground (arith, has_prefix-trim_end s sub v.1))

module _ (d : ℕ) (sub : Text) (v : All (λ c. is_space c ≡ false) (d ∷ sub)) where
  Free-push_kept : (c : ℕ) (s : Text) → Free (d ∷ sub) (push_kept is_space c s) → Free (d ∷ sub) s
  Free-push_kept c [] h = unfold contains has_prefix in refl
  Free-push_kept c (e ∷ s) h = Free-tail c (e ∷ s) (d ∷ sub) h

  Free-of_trim_end : (s : Text) → Free (d ∷ sub) (drop_while_end is_space s) → Free (d ∷ sub) s
  unfolding drop_while_end
  Free-of_trim_end [] h = h
  Free-of_trim_end (c ∷ s) h = elim (Bool-cases (is_space c)) [
    | inl e ↦
        Free-cons c s (d ∷ sub) (not_head d sub c s v.0 e)
          (Free-of_trim_end s (Free-push_kept c (drop_while_end is_space s) h))
    | inr e ↦
        Free-cons c s (d ∷ sub)
          (false_of _ _ (has_prefix-trim_end (c ∷ s) (d ∷ sub) v) (
            rw (push_kept_of_kept is_space c (drop_while_end is_space s) e) (
              Free-head c (drop_while_end is_space s) (d ∷ sub) (
                subst (Free (d ∷ sub)) (push_kept_of_kept is_space c (drop_while_end is_space s) e)
                  h))))
          (Free-of_trim_end s (Free-push_kept c (drop_while_end is_space s) h))
  ]

  -- What TrimSpace takes away holds no visible text.
  pub Free-of_trim_space : (s : Text) → Free (d ∷ sub) (trim_space s) → Free (d ∷ sub) s
  unfolding trim_space
  Free-of_trim_space s h =
      Free-of_drop_while d sub s v.0 (Free-of_trim_end (drop_while is_space s) h)

-- The first part of a split begins the way the text does, up to the separator.
abbrev begins : List Text → Text → Bool
begins [] sub = false
begins (p ∷ ps) sub = has_prefix p sub

begins-cons_head :
    (c d : ℕ) (ps : List Text) (sub : Text)
    → c ≡ d
    → begins ps sub ≡ true
    → begins (cons_head c ps) (d ∷ sub) ≡ true
unfolding has_prefix
begins-cons_head c d [] sub e h = cc
begins-cons_head c d (p ∷ ps) sub e h = ground arith

begins-nil : (c : ℕ) (ps : List Text) → begins (cons_head c ps) [] ≡ true
unfolding has_prefix
begins-nil c [] = refl
begins-nil c (p ∷ ps) = refl

begins-split :
    (s sub : Text) (sep : ℕ)
    → Lacks sep sub
    → has_prefix s sub ≡ true
    → begins (split s sep) sub ≡ true
unfolding split
begins-split [] sub sep l h = h
begins-split (c ∷ s) [] sep l h = elim (Bool-cases (c == sep)) [
  | inl e ↦ rw e (unfold has_prefix in refl)
  | inr e ↦ rw e (begins-nil c (split s sep))
]
begins-split (c ∷ s) (d ∷ sub) sep l h =
    let (same, rest) = head_of d sub c s h in
    rw (==_of_ne c sep (λ e. l.0 (sym same ∙ e)))
      (begins-cons_head c d (split s sep) sub same (begins-split s sub sep l.1 rest))

begins_of_Free : (ps : List Text) (sub : Text) → All (Free sub) ps → begins ps sub ≡ false
begins_of_Free [] sub h = refl
begins_of_Free ([] ∷ ps) sub h = unfold contains in h.0
begins_of_Free ((c ∷ p) ∷ ps) sub h = Free-head c p sub h.0

All-cons_head_inv :
    (c : ℕ) (ps : List Text) (sub : Text) → All (Free sub) (cons_head c ps) → All (Free sub) ps
All-cons_head_inv c [] sub h = tt
All-cons_head_inv c (p ∷ ps) sub h = (Free-tail c p sub h.0, h.1)

split-rest :
    (c : ℕ) (s sub : Text) (sep : ℕ)
    → All (Free sub) (split (c ∷ s) sep)
    → All (Free sub) (split s sep)
unfolding split
split-rest c s sub sep = elim (Bool-cases (c == sep)) [
  | inl e ↦ rw e (λ h. h.1)
  | inr e ↦ rw e (All-cons_head_inv c (split s sep) sub)
]

-- What no part holds, the whole does not hold either.
pub Free-of_split :
    (s sub : Text) (sep : ℕ) → Lacks sep sub → All (Free sub) (split s sep) → Free sub s
Free-of_split [] sub sep l h = unfold split in h.0
Free-of_split (c ∷ s) sub sep l h =
    Free-cons c s sub
      (false_of _ _ (begins-split (c ∷ s) sub sep l) (begins_of_Free (split (c ∷ s) sep) sub h))
      (Free-of_split s sub sep l (split-rest c s sub sep h))
