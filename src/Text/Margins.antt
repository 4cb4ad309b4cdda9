-- ===== src/Text/Margins.antt =====
-- White space at the ends of a text that is split into parts.
use stocker_informer.Base.{
  ℕ, ◌≡◌, ◌≢◌, refl, sym, ◌∙◌, ap, inl, inr, false, true, List, [], ◌∷◌, map, Text, Bool-cases,
  ◌==◌, ==_iff,
}
use stocker_informer.Text.{
  is_space, drop_while, push_kept, drop_while_end, trim_space, cons_head, split,
}
use stocker_informer.Text.Trim.{drop_while_end_idem, push_kept_of_kept}
use stocker_informer.Text.Split.{split-ne-nil}

abbrev pub trim_end : Text → Text
trim_end = drop_while_end is_space

push_kept_nil : (c : ℕ) → is_space c ≡ true → push_kept is_space c [] ≡ []
push_kept_nil c h = rw h

pub trim_space-space : (c : ℕ) (s : Text) → is_space c ≡ true → trim_space (c ∷ s) ≡ trim_space s
unfolding trim_space drop_while
trim_space-space c s h = rw h

trim_space-push_kept :
    (c : ℕ) (s : Text) → is_space c ≡ true → trim_space (push_kept is_space c s) ≡ trim_space s
trim_space-push_kept c [] h = rw h
trim_space-push_kept c (d ∷ s) h = trim_space-space c (d ∷ s) h

-- White space that was trimmed at the end is trimmed by TrimSpace anyway.
pub trim_space-trim_end : (s : Text) → trim_space (trim_end s) ≡ trim_space s
unfolding drop_while_end
trim_space-trim_end [] = refl
trim_space-trim_end (c ∷ s) = elim (Bool-cases (is_space c)) [
  | inl e ↦
      trim_space-push_kept c (trim_end s) e ∙ trim_space-trim_end s ∙ sym (trim_space-space c s e)
  | inr e ↦ rw (push_kept_of_kept is_space c (trim_end s) e) (
      unfold trim_space drop_while in
      rw e (ap (push_kept is_space c) (drop_while_end_idem is_space s)))
]

map-trim_end : (ps : List Text) → map trim_space (map trim_end ps) ≡ map trim_space ps
map-trim_end [] = refl
map-trim_end (p ∷ ps) = rw (trim_space-trim_end p, map-trim_end ps)

abbrev push_head : ℕ → List Text → List Text
push_head c [] = push_kept is_space c [] ∷ []
push_head c (p ∷ ps) = push_kept is_space c p ∷ ps

map-cons_head :
    (c : ℕ) (ps : List Text) → map trim_end (cons_head c ps) ≡ push_head c (map trim_end ps)
unfolding drop_while_end
map-cons_head c [] = refl
map-cons_head c (p ∷ ps) = refl

map_of_space :
    (c : ℕ) (ps : List Text)
    → ps ≢ []
    → is_space c ≡ true
    → map trim_space (cons_head c ps) ≡ map trim_space ps
map_of_space c [] h e = absurd (h refl)
map_of_space c (p ∷ ps) h e = rw (trim_space-space c p e)

module _ (sep : ℕ) (visible : is_space sep ≡ false) where
  not_sep : (c : ℕ) → is_space c ≡ true → (c == sep) ≡ false
  not_sep c h = elim (Bool-cases (c == sep)) [
    | inl e ↦ cc (ap is_space ((==_iff c sep).0 e))
    | inr e ↦ e
  ]

  split-space :
      (c : ℕ) (s : Text) → is_space c ≡ true → split (c ∷ s) sep ≡ cons_head c (split s sep)
  unfolding split
  split-space c s h = rw (not_sep c h)

  split-cons :
      (c : ℕ) (s t : Text)
      → map trim_end (split t sep) ≡ map trim_end (split s sep)
      → map trim_end (split (c ∷ t) sep) ≡ map trim_end (split (c ∷ s) sep)
  unfolding split
  split-cons c s t h = elim (Bool-cases (c == sep)) [
    | inl e ↦ rw e (ap (λ ps. trim_end [] ∷ ps) h)
    | inr e ↦
        rw (e, map-cons_head c (split t sep), map-cons_head c (split s sep)) (ap (push_head c) h)
  ]

  split-push_kept :
      (c : ℕ) (s t : Text)
      → map trim_end (split t sep) ≡ map trim_end (split s sep)
      → map trim_end (split (push_kept is_space c t) sep) ≡ map trim_end (split (c ∷ s) sep)
  split-push_kept c s [] h = elim (Bool-cases (is_space c)) [
    | inl e ↦
        rw (split-space c s e, map-cons_head c (split s sep), ← h, e)
          (unfold split drop_while_end in rw e refl)
    | inr e ↦ rw e (split-cons c s [] h)
  ]
  split-push_kept c s (d ∷ t) h = split-cons c s (d ∷ t) h

  split-trim_end : (s : Text) → map trim_end (split (trim_end s) sep) ≡ map trim_end (split s sep)
  unfolding drop_while_end
  split-trim_end [] = refl
  split-trim_end (c ∷ s) = split-push_kept c s (trim_end s) (split-trim_end s)

  split-drop_while :
      (s : Text) → map trim_space (split (drop_while is_space s) sep) ≡ map trim_space (split s sep)
  unfolding drop_while
  split-drop_while [] = refl
  split-drop_while (c ∷ s) = elim (Bool-cases (is_space c)) [
    | inl e ↦
        rw (e, split-space c s e, map_of_space c (split s sep) (split-ne-nil s sep) e)
          (split-drop_while s)
    | inr e ↦ rw e refl
  ]

  -- The parts of a trimmed text are, once trimmed, those of the text.
  pub split-trim_space :
      (s : Text) → map trim_space (split (trim_space s) sep) ≡ map trim_space (split s sep)
  unfolding trim_space
  split-trim_space s =
      let t = drop_while is_space s in
      sym (map-trim_end (split (trim_end t) sep))
      ∙ ap (map trim_space) (split-trim_end t)
      ∙ map-trim_end (split t sep)
      ∙ split-drop_while s
