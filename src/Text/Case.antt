-- ===== src/Text/Case.antt =====
-- Case mapping, separators and dots.
use stocker_informer.Base.{ℕ, ◌<◌, ◌≡◌, refl, ◌∙◌, [], ◌∷◌, arith, Text, All}
use stocker_informer.Text.{CaseTable, rune_upper, to_upper, has_prefix, contains}
use stocker_informer.Text.Split.{Lacks}
use stocker_informer.Text.Contains.{Free}

module _ (table : CaseTable) where
  open table use {upper, upper_lands}

  -- A rune becomes a slash or a dot, or any rune below the digits, only if it is one.
  rune_upper-low : (r d : ℕ) → d < b'A' → rune_upper table r ≡ d → r ≡ d
  unfolding rune_upper
  rune_upper-low r d h e = ground (arith, upper_lands r)

  rune_upper_of_low : (d : ℕ) → d < b'A' → rune_upper table d ≡ d
  unfolding rune_upper
  rune_upper_of_low d h = ground arith

  pub to_upper-Lacks : (s : Text) (d : ℕ) → d < b'A' → Lacks d s → Lacks d (to_upper table s)
  unfolding to_upper
  to_upper-Lacks [] d h k = tt
  to_upper-Lacks (c ∷ s) d h k = (λ e. k.0 (rune_upper-low c d h e), to_upper-Lacks s d h k.1)

  has_prefix-to_upper :
      (s sub : Text)
      → All (λ d. d < b'A') sub
      → has_prefix (to_upper table s) sub ≡ has_prefix s sub
  unfolding to_upper has_prefix
  has_prefix-to_upper s [] h = unfold has_prefix in refl
  has_prefix-to_upper [] (d ∷ sub) h = refl
  has_prefix-to_upper (c ∷ s) (d ∷ sub) h =
      ground (arith, rune_upper-low c d h.0, rune_upper_of_low d h.0, has_prefix-to_upper s sub h.1)

  contains-to_upper :
      (s sub : Text) → All (λ d. d < b'A') sub → contains (to_upper table s) sub ≡ contains s sub
  unfolding to_upper contains
  contains-to_upper [] sub h = refl
  contains-to_upper (c ∷ s) sub h =
      ground (arith, has_prefix-to_upper (c ∷ s) sub h, contains-to_upper s sub h)

  -- So the upper case of a text contains a text of such runes exactly when the text does.
  pub to_upper-Free :
      (s sub : Text) → All (λ d. d < b'A') sub → Free sub s → Free sub (to_upper table s)
  to_upper-Free s sub h k = contains-to_upper s sub h ∙ k
