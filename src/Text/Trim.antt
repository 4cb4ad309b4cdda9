-- ===== src/Text/Trim.antt =====
-- The laws of trimming.
use stocker_informer.Base.{
  ap, ℕ, ◌≡◌, refl, ◌↔◌, inl, inr, Bool, true, false, [], ◌∷◌, ◌++◌, Text, All, Bool-cases,
}
use stocker_informer.Text.{is_space, drop_while, push_kept, drop_while_end, trim_space}

module _ (p : ℕ → Bool) where
  -- A text that does not begin with a rune of the kind that is trimmed.
  abbrev StartsKept : Text → Type 0
  StartsKept [] = Unit
  StartsKept (c ∷ s) = p c ≡ false

  drop_while-StartsKept : (s : Text) → StartsKept (drop_while p s)
  unfolding drop_while
  drop_while-StartsKept [] = tt
  drop_while-StartsKept (c ∷ s) = elim (Bool-cases (p c)) [
    | inl gone ↦ rw gone (drop_while-StartsKept s)
    | inr kept ↦ rw kept kept
  ]

  drop_while_of_StartsKept : (s : Text) → StartsKept s → drop_while p s ≡ s
  unfolding drop_while
  drop_while_of_StartsKept [] h = refl
  drop_while_of_StartsKept (c ∷ s) h = rw h

  pub push_kept_of_kept : (c : ℕ) (s : Text) → p c ≡ false → push_kept p c s ≡ c ∷ s
  push_kept_of_kept c [] h = rw h
  push_kept_of_kept c (d ∷ s) h = refl

  drop_while_end-StartsKept : (s : Text) → StartsKept s → StartsKept (drop_while_end p s)
  unfolding drop_while_end
  drop_while_end-StartsKept [] h = tt
  drop_while_end-StartsKept (c ∷ s) h = rw (push_kept_of_kept c (drop_while_end p s) h) h

  push_kept_idem :
      (c : ℕ) (s : Text)
      → drop_while_end p s ≡ s
      → drop_while_end p (push_kept p c s) ≡ push_kept p c s
  unfolding drop_while_end
  push_kept_idem c [] h = elim (Bool-cases (p c)) [ inl e ↦ rw e | inr e ↦ rw e (rw e) ]
  push_kept_idem c (d ∷ s) h = rw h

  pub drop_while_end_idem : (s : Text) → drop_while_end p (drop_while_end p s) ≡ drop_while_end p s
  unfolding drop_while_end
  drop_while_end_idem [] = refl
  drop_while_end_idem (c ∷ s) = push_kept_idem c (drop_while_end p s) (drop_while_end_idem s)

  module _ {κ} (P : ℕ → Type κ) where
    pub All-drop_while : (s : Text) → All P s → All P (drop_while p s)
    unfolding drop_while
    All-drop_while [] h = h
    All-drop_while (c ∷ s) h = elim (Bool-cases (p c)) [
      | inl gone ↦ rw gone (All-drop_while s h.1)
      | inr kept ↦ rw kept h
    ]

    All-push_kept : (c : ℕ) (s : Text) → P c → All P s → All P (push_kept p c s)
    All-push_kept c [] h k = elim (Bool-cases (p c)) [ inl e ↦ rw e tt | inr e ↦ rw e (h, tt) ]
    All-push_kept c (d ∷ s) h k = (h, k)

    pub All-drop_while_end : (s : Text) → All P s → All P (drop_while_end p s)
    unfolding drop_while_end
    All-drop_while_end [] h = h
    All-drop_while_end (c ∷ s) h =
        All-push_kept c (drop_while_end p s) h.0 (All-drop_while_end s h.1)

  abbrev pub IsCut : Text → Text → Type 0
  IsCut s kept = (t : Text) × (s ≡ kept ++ t) × All (λ c. p c ≡ true) t

  push_kept-IsCut : (c : ℕ) (s kept : Text) → IsCut s kept → IsCut (c ∷ s) (push_kept p c kept)
  push_kept-IsCut c s [] (t, e, h) = elim (Bool-cases (p c)) [
    | inl gone ↦ rw gone (c ∷ s, refl, (gone, rw e h))
    | inr kept ↦ rw kept (t, rw e, h)
  ]
  push_kept-IsCut c s (d ∷ r) (t, e, h) = (t, rw e, h)

  -- What is cut at the end was a text of runes of that kind.
  pub drop_while_end_rest : (s : Text) → IsCut s (drop_while_end p s)
  unfolding drop_while_end
  drop_while_end_rest [] = ([], refl, tt)
  drop_while_end_rest (c ∷ s) = push_kept-IsCut c s (drop_while_end p s) (drop_while_end_rest s)

  pub drop_while_end-append :
      (s : Text) (c : ℕ) → p c ≡ true → drop_while_end p (s ++ c ∷ []) ≡ drop_while_end p s
  unfolding drop_while_end
  drop_while_end-append [] c h = rw h refl
  drop_while_end-append (d ∷ s) c h = ap (push_kept p d) (drop_while_end-append s c h)

-- Trimming a trimmed text changes nothing.
pub trim_space_idem : (s : Text) → trim_space (trim_space s) ≡ trim_space s
unfolding trim_space
trim_space_idem s =
    let kept = drop_while_end-StartsKept is_space _ (drop_while-StartsKept is_space s) in
    rw (drop_while_of_StartsKept is_space _ kept) (drop_while_end_idem is_space _)

pub All-trim_space {κ} : (P : ℕ → Type κ) (s : Text) → All P s → All P (trim_space s)
unfolding trim_space
All-trim_space P s h = All-drop_while_end is_space P _ (All-drop_while is_space P s h)

push_kept-ne-nil : (c : ℕ) (s : Text) → is_space c ≡ false → push_kept is_space c s ≡ [] → ⊥
push_kept-ne-nil c s h e = cc (push_kept_of_kept is_space c s h)

-- A text is trimmed to nothing exactly when it holds nothing but white space.
pub trim_space-nil_iff : (s : Text) → (trim_space s ≡ []) ↔ All (λ c. is_space c ≡ true) s
unfolding trim_space drop_while drop_while_end
trim_space-nil_iff [] = (λ _. tt, λ _. refl)
trim_space-nil_iff (c ∷ s) = elim (Bool-cases (is_space c)) [
  | inl e ↦ rw e (λ h. (refl, (trim_space-nil_iff s).0 h), λ h. (trim_space-nil_iff s).1 h.1)
  | inr e ↦ rw e (λ h. absurd (push_kept-ne-nil c _ e h), λ h. cc)
]
