-- ===== src/Config/Load/Values.antt =====
-- Which values the checks of Load of internal/config/config.go accept.
use Prim.Native.String.{String}
use stocker_informer.Base.{
  ℕ, ◌≡◌, ◌≢◌, ◌⊎◌, ◌↔◌, refl, sym, inl, inr, Bool, true, false, ◌||◌, List, [], ◌∷◌, Option, none,
  some, Text, text_eq, is_empty, arith, Bool-cases, if◌then◌else◌, All,
}
use stocker_informer.Int.{ℤ, pos, negsuc, ltb_ℤ}
use stocker_informer.Config.{audience_global, audience_local, audience_direct}
use stocker_informer.Config.Env.{Checked}
use stocker_informer.Config.Accepts.{Accepts}
use stocker_informer.Config.Checks.{
  missing, is_audience, check_audience, check_enabled, check_max_output_chars, model_problems,
}

-- A value that is given for a setting is one of those it takes, if it is given at all.
abbrev pub IsUnsetOr : Text → Type 0 → Type 0
IsUnsetOr raw P = (raw ≡ []) ⊎ P

pub or_default :
    {A : Type 0} {P : Type 0} (raw : Text) (fallback : A) (c : Checked A)
    → Accepts c P
    → Accepts (if is_empty raw then (fallback, []) else c) (IsUnsetOr raw P)
or_default [] fallback c (there, back) = (λ h. inl refl, λ h. refl)
or_default (r ∷ raw) fallback c (there, back) =
    (λ h. inr (there h), λ h. elim h [ inl e ↦ cc | inr p ↦ back p ])

pub missing-nil_iff :
    (required : List (String × Text)) → (missing required ≡ []) ↔ All (λ v. v.1 ≢ []) required
unfolding missing
missing-nil_iff [] = (λ h. tt, λ h. refl)
missing-nil_iff ((name, []) ∷ required) = (λ h. cc, λ h. absurd (h.0 refl))
missing-nil_iff ((name, c ∷ value) ∷ required) =
    let (there, back) = missing-nil_iff required in (λ h. ((λ x. cc), there h), λ h. back h.1)

pub check_audience-Accepts :
    (given : Text) → Accepts (check_audience given) (IsUnsetOr given (is_audience given ≡ true))
unfolding check_audience
check_audience-Accepts [] = unfold is_audience in (λ h. inl refl, λ h. refl)
check_audience-Accepts (c ∷ given) = ground arith

last_false : (a b c : Bool) → (a || b || c) ≡ false → c ≡ false
last_false a b c h = ground arith

-- A recipient is needed exactly for what was given as "direct".
pub check_audience_direct :
    (given : Text)
    → text_eq (check_audience given).0 audience_direct ≡ text_eq given audience_direct
unfolding check_audience is_audience
check_audience_direct [] = refl
check_audience_direct (c ∷ given) = elim (Bool-cases (is_audience (c ∷ given))) [
  | inl e ↦ rw e refl
  | inr e ↦ rw e (
      sym
        (last_false (text_eq (c ∷ given) audience_global) (text_eq (c ∷ given) audience_local) _ e))
]

pub check_enabled-Accepts :
    (raw : Text) (o : Option Bool) → Accepts (check_enabled raw o) ((b : Bool) × (o ≡ some b))
unfolding check_enabled
check_enabled-Accepts raw none = (λ h. cc, λ h. cc)
check_enabled-Accepts raw (some b) = (λ h. (b, refl), λ h. refl)

not_negative : (n : ℕ) → ltb_ℤ (pos n) (pos 0) ≡ false
not_negative n = ground arith

negative : (n : ℕ) → ltb_ℤ (negsuc n) (pos 0) ≡ true
negative n = ground arith

pub check_max_output_chars-Accepts :
    (raw : Text) (o : Option ℤ)
    → Accepts (check_max_output_chars raw o) ((n : ℕ) × (o ≡ some (pos n)))
unfolding check_max_output_chars
check_max_output_chars-Accepts raw none = (λ h. cc, λ h. cc)
check_max_output_chars-Accepts raw (some (pos n)) = (λ h. (n, refl), λ h. rw (not_negative n) refl)
check_max_output_chars-Accepts raw (some (negsuc n)) =
    rw (negative n) (λ h. cc, λ h. let (m, e) = h in cc)

pub model_problems-nil_iff : (model : Text) → (model_problems model ≡ []) ↔ (model ≢ [])
unfolding model_problems
model_problems-nil_iff [] = (λ h. cc, λ h. absurd (h refl))
model_problems-nil_iff (c ∷ model) = (λ h x. cc, λ h. refl)
