-- ===== src/Text/Cut/Laws.antt =====
-- What is left of a text that was cut.
use stocker_informer.Base.{
  refl, if◌then◌else◌, ℕ, zero, suc, ◌+◌, ◌<◌, ◌^◌, ◌≡◌, ◌≢◌, inl, inr, false, [], ◌∷◌, ◌++◌,
  Option, none, some, Text, All, arith, Bool-cases, ◌==◌, ==_iff, ltb, ap,
}
use stocker_informer.Int.{ℤ, pos, negsuc}
use stocker_informer.Text.Split.{Lacks}
use stocker_informer.Text.Cut.{
  cut, cons_before, until_any, is_one_of, after_last, or_text, count, atoi, positive_int,
  negative_int, digits, trim_prefix,
}

ne_of_test : (c sep : ℕ) → (c == sep) ≡ false → c ≢ sep
ne_of_test c sep h e = ground arith

-- What cutting a text at a separator yields: the separator is not there, or the text is what is
-- before its first occurrence, the separator and what is after it.
abbrev pub IsCutOf : Text → ℕ → Option (Text × Text) → Type 0
IsCutOf s sep none = Lacks sep s
IsCutOf s sep (some (before, after)) = (s ≡ before ++ sep ∷ after) × Lacks sep before

cons_before-IsCutOf :
    (c : ℕ) (s : Text) (sep : ℕ) (r : Option (Text × Text))
    → c ≢ sep
    → IsCutOf s sep r
    → IsCutOf (c ∷ s) sep (cons_before c r)
cons_before-IsCutOf c s sep none h k = (h, k)
cons_before-IsCutOf c s sep (some (before, after)) h (e, k) = (ap (λ t. c ∷ t) e, (h, k))

pub cut-IsCutOf : (s : Text) (sep : ℕ) → IsCutOf s sep (cut s sep)
unfolding cut
cut-IsCutOf [] sep = tt
cut-IsCutOf (c ∷ s) sep = elim (Bool-cases (c == sep)) [
  | inl e ↦ rw e (ap (λ d. d ∷ s) ((==_iff c sep).0 e), tt)
  | inr e ↦ rw e (cons_before-IsCutOf c s sep (cut s sep) (ne_of_test c sep e) (cut-IsCutOf s sep))
]

pub until_any-All : (s cutset : Text) → All (λ c. is_one_of cutset c ≡ false) (until_any s cutset)
unfolding until_any
until_any-All [] cutset = tt
until_any-All (c ∷ s) cutset = elim (Bool-cases (is_one_of cutset c)) [
  | inl e ↦ rw e tt
  | inr e ↦ rw e (e, until_any-All s cutset)
]

-- What follows the last separator, or a whole text without one, has no separator.
abbrev pub IsLastOf : Text → ℕ → Option Text → Type 0
IsLastOf s sep none = Lacks sep s
IsLastOf s sep (some rest) = Lacks sep rest

or_text-IsLastOf :
    (c : ℕ) (s : Text) (sep : ℕ) (r : Option Text)
    → IsLastOf s sep r
    → IsLastOf (c ∷ s) sep (or_text r (if c == sep then some s else none))
or_text-IsLastOf c s sep none h = elim (Bool-cases (c == sep)) [
  | inl e ↦ rw e h
  | inr e ↦ rw e (ne_of_test c sep e, h)
]
or_text-IsLastOf c s sep (some rest) h = h

pub after_last-IsLastOf : (s : Text) (sep : ℕ) → IsLastOf s sep (after_last s sep)
unfolding after_last
after_last-IsLastOf [] sep = tt
after_last-IsLastOf (c ∷ s) sep =
    or_text-IsLastOf c s sep (after_last s sep) (after_last-IsLastOf s sep)

module _ {κ} (P : ℕ → Type κ) where
  abbrev pub AllOption : Option Text → Type κ
  AllOption none = Unit
  AllOption (some s) = All P s

  or_text-All :
      (c : ℕ) (s : Text) (sep : ℕ) (r : Option Text)
      → All P s
      → AllOption r
      → AllOption (or_text r (if c == sep then some s else none))
  or_text-All c s sep none h k = elim (Bool-cases (c == sep)) [ inl e ↦ rw e h | inr e ↦ rw e tt ]
  or_text-All c s sep (some rest) h k = k

  pub after_last-All : (s : Text) (sep : ℕ) → All P s → AllOption (after_last s sep)
  unfolding after_last
  after_last-All [] sep h = tt
  after_last-All (c ∷ s) sep (h, k) =
      or_text-All c s sep (after_last s sep) k (after_last-All s sep k)

  pub All-of_append : (s t : Text) → All P (s ++ t) → All P s × All P t
  All-of_append [] t h = (tt, h)
  All-of_append (c ∷ s) t (h, k) = let (l, r) = All-of_append s t k in ((h, l), r)

pub Lacks-of_count : (s : Text) (sep : ℕ) → count s sep ≡ 0 → Lacks sep s
unfolding count
Lacks-of_count [] sep h = tt
Lacks-of_count (c ∷ s) sep h = elim (Bool-cases (c == sep)) [
  | inl e ↦ ground arith
  | inr e ↦ (ne_of_test c sep e, Lacks-of_count s sep (ground arith))
]

pub count-append :
    (s t : Text) (sep : ℕ) → count (s ++ sep ∷ t) sep ≡ count s sep + suc (count t sep)
unfolding count
count-append [] t sep = ground arith
count-append (c ∷ s) t sep = omega (arith, count-append s t sep)

-- A result of Atoi has 64 bits.
abbrev pub IsInt : Option ℤ → Type 0
IsInt none = Unit
IsInt (some (pos n)) = n < 2 ^ 63
IsInt (some (negsuc n)) = n < 2 ^ 63

positive_int-IsInt : (n : Option ℕ) → IsInt (positive_int n)
positive_int-IsInt none = tt
positive_int-IsInt (some n) = elim (Bool-cases (ltb n (2 ^ 63))) [
  | inl e ↦ rw e (ground arith)
  | inr e ↦ rw e tt
]

negative_int-IsInt : (n : Option ℕ) → IsInt (negative_int n)
negative_int-IsInt none = tt
negative_int-IsInt (some zero) = omega arith
negative_int-IsInt (some (suc n)) = elim (Bool-cases (ltb n (2 ^ 63))) [
  | inl e ↦ rw e (ground arith)
  | inr e ↦ rw e tt
]

pub atoi-IsInt : (s : Text) → IsInt (atoi s)
unfolding atoi
atoi-IsInt [] = tt
atoi-IsInt (c ∷ s) = elim (Bool-cases (c == b'-')) [
  | inl e ↦ rw e (negative_int-IsInt (digits s))
  | inr e ↦ elim (Bool-cases (c == b'+')) [
    | inl f ↦ rw (e, f) (positive_int-IsInt (digits s))
    | inr f ↦ rw (e, f) (positive_int-IsInt (digits (c ∷ s)))
  ]
]

test_of_ne : (c sep : ℕ) → c ≢ sep → (c == sep) ≡ false
test_of_ne c sep h = ground arith

pub count_of-Lacks : (s : Text) (sep : ℕ) → Lacks sep s → count s sep ≡ 0
unfolding count
count_of-Lacks [] sep h = refl
count_of-Lacks (c ∷ s) sep (h, k) = rw (test_of_ne c sep h) (omega (arith, count_of-Lacks s sep k))

pub cut-append : (s t : Text) (sep : ℕ) → Lacks sep s → cut (s ++ sep ∷ t) sep ≡ some (s, t)
unfolding cut
cut-append [] t sep h = rw ((==_iff sep sep).1 refl) refl
cut-append (c ∷ s) t sep (h, k) =
    rw (test_of_ne c sep h) (ap (cons_before c) (cut-append s t sep k))

pub trim_prefix_absent :
    (c : ℕ) (s : Text) (prefix : ℕ) → c ≢ prefix → trim_prefix (c ∷ s) prefix ≡ c ∷ s
unfolding trim_prefix
trim_prefix_absent c s prefix h = rw (test_of_ne c prefix h) refl

pub trim_prefix_present : (s : Text) (prefix : ℕ) → trim_prefix (prefix ∷ s) prefix ≡ s
unfolding trim_prefix
trim_prefix_present s prefix = rw ((==_iff prefix prefix).1 refl) refl
