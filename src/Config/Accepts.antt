-- ===== src/Config/Accepts.antt =====
-- Which values the settings of internal/config/config.go accept, and a setting that is a positive
-- integer.
use Prim.Native.String.{String}
use mathlib.Core.Option.{some-injective}
use stocker_informer.Base.{
  subst, sym, ap, ◌∙◌, if◌then◌else◌, ◌≡◌, ◌⊎◌, ◌↔◌, refl, inl, inr, true, false, List, [], ◌∷◌,
  ◌++◌, Option, none, some, Text, is_empty, arith, Bool-cases, ℕ,
}
use stocker_informer.Int.{ℤ, pos, negsuc, ltb_ℤ}
use stocker_informer.Errors.{Error}
use stocker_informer.Text.Cut.{atoi}
use stocker_informer.Config.Env.{
  Library, Checked, problems, env, check_max, check_positive, positive_setting,
}
use stocker_informer.Config.Range.{InRange}
use stocker_informer.Config.Broker.Valid.{append-nil_parts}

-- A setting without a problem, exactly if something holds.
abbrev pub Accepts : {A : Type 0} → Checked A → Type 0 → Type 0
Accepts c P = (c.1 ≡ []) ↔ P

-- The problems of two settings, one after the other.
pub both :
    {P Q : Type 0} {xs ys : List Error} → (xs ≡ []) ↔ P → (ys ≡ []) ↔ Q → (xs ++ ys ≡ []) ↔ (P × Q)
both {xs} {ys} (there, back) (there', back') = (
  λ h. let (p, q) = append-nil_parts xs ys h in (there p, there' q),
  λ (p, q). rw (back p, back' q) refl,
)

pub problems-nil_iff : (o : Option Error) → (problems o ≡ []) ↔ (o ≡ none)
problems-nil_iff none = (λ h. refl, λ h. refl)
problems-nil_iff (some e) = (λ h. cc, λ h. cc)

-- A number that is given for a setting: in its range, if it is given at all.
abbrev pub IsGiven : Option ℕ → Text → Type 0
IsGiven most raw = (raw ≡ []) ⊎ ((n : ℤ) × (atoi raw ≡ some n) × InRange most n)

check_max-Accepts :
    (name : String) (fallback : ℤ) (most : Option ℕ) (n : ℤ)
    → ltb_ℤ (pos 0) n ≡ true
    → Accepts (check_max name fallback most n) (InRange most n)
unfolding check_max
check_max-Accepts name fallback none (pos n) h = ground arith
check_max-Accepts name fallback (some m) (pos n) h = ground arith
check_max-Accepts name fallback most (negsuc n) h = absurd (ground arith)

InRange-positive : (most : Option ℕ) (n : ℤ) → InRange most n → ltb_ℤ (pos 0) n ≡ false → ⊥
InRange-positive none (pos n) r e = ground arith
InRange-positive (some m) (pos n) r e = ground arith
InRange-positive most (negsuc n) r e = absurd (ground arith)

check_positive-Accepts :
    (name : String) (fallback : ℤ) (most : Option ℕ) (raw : Text) (o : Option ℤ)
    → Accepts (check_positive name fallback most raw o) ((n : ℤ) × (o ≡ some n) × InRange most n)
unfolding check_positive
check_positive-Accepts name fallback most raw none = (λ h. cc, λ h. cc)
check_positive-Accepts name fallback most raw (some n) = elim (Bool-cases (ltb_ℤ (pos 0) n)) [
  | inl e ↦
      let (there, back) = check_max-Accepts name fallback most n e in
      rw e (
        λ h. (n, refl, there h),
        λ (m, q, r). back (subst (InRange most) (sym (some-injective n m q)) r),
      )
  | inr e ↦ rw e (
    λ h. cc,
    λ (m, q, r).
        absurd (InRange-positive most m r (ap (ltb_ℤ (pos 0)) (sym (some-injective n m q)) ∙ e)),
  )
]

pub positive_setting-Accepts :
    {F : Type 0} (l : Library F) (name : String) (fallback : ℤ) (most : Option ℕ)
    → Accepts (positive_setting l name fallback most) (IsGiven most (env l name []))
unfolding positive_setting
positive_setting-Accepts l name fallback most = given (env l name [])
  where
    given :
        (raw : Text)
        → Accepts
            (if is_empty raw
              then (fallback, [])
              else check_positive name fallback most raw (atoi raw))
            (IsGiven most raw)
    given [] = (λ h. inl refl, λ h. refl)
    given (c ∷ s) =
        let (there, back) = check_positive-Accepts name fallback most (c ∷ s) (atoi (c ∷ s)) in
        (λ h. inr (there h), λ h. elim h [ inl e ↦ cc | inr x ↦ back x ])
