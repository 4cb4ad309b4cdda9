-- ===== src/Config/Load/Settings.antt =====
-- The single settings that Load of internal/config/config.go loads.
use Prim.Native.String.{String}
use stocker_informer.Base.{
  ◌≡◌, ◌≢◌, ◌⊎◌, refl, inl, inr, Bool, true, false, ◌||◌, List, [], ◌∷◌, Option, none, some, Text,
  text_eq, text_eq_iff, arith, Bool-cases, if◌then◌else◌, All,
}
use stocker_informer.Int.{ℤ, pos, negsuc, ltb_ℤ}
use stocker_informer.Errors.{Result, ok, err}
use stocker_informer.Config.{Audience, audience_global, audience_local, audience_direct}
use stocker_informer.Config.Env.{Library, problems, is_web_url, validate_url}
use stocker_informer.Config.Recipient.{hostname_of}
use stocker_informer.Config.Recipient.Handle.{
  IsHandle, IsHandleResult, normalize_recipient-IsHandle,
}
use stocker_informer.Config.Broker.Valid.{Sound}
use stocker_informer.Config.Load.{load_recipient}
use stocker_informer.Config.Checks.{
  missing, is_audience, check_audience, checked_recipient, check_max_output_chars, model_problems,
}

abbrev pub IsAudience : Audience → Type 0
IsAudience a = (a ≡ audience_global) ⊎ (a ≡ audience_local) ⊎ (a ≡ audience_direct)

abbrev pub IsCount : ℤ → Type 0
IsCount (pos n) = Unit
IsCount (negsuc n) = ⊥

pub missing-filled :
    (required : List (String × Text)) → missing required ≡ [] → All (λ v. v.1 ≢ []) required
unfolding missing
missing-filled [] h = tt
missing-filled ((name, []) ∷ required) h = cc
missing-filled ((name, c ∷ value) ∷ required) h = (λ x. cc, missing-filled required h)

three_cases : (a b c : Bool) → (a || b || c) ≡ true → (a ≡ true) ⊎ (b ≡ true) ⊎ (c ≡ true)
three_cases true b c h = inl refl
three_cases false true c h = inr (inl refl)
three_cases false false c h = inr (inr h)

is_audience-IsAudience : (a : Audience) → is_audience a ≡ true → IsAudience a
unfolding is_audience
is_audience-IsAudience a h =
    elim (three_cases (text_eq a audience_global) (text_eq a audience_local)
      (text_eq a audience_direct) h) [
        | inl e ↦ inl ((text_eq_iff _ _).0 e)
        | inr (inl e) ↦ inr (inl ((text_eq_iff _ _).0 e))
        | inr (inr e) ↦ inr (inr ((text_eq_iff _ _).0 e))
      ]

pub check_audience-Sound : (given : Text) → Sound IsAudience (check_audience given)
unfolding check_audience
check_audience-Sound [] = λ h. inl refl
check_audience-Sound (c ∷ given) = elim (Bool-cases (is_audience (c ∷ given))) [
  | inl e ↦ rw e (λ h. is_audience-IsAudience (c ∷ given) e)
  | inr e ↦ rw e (λ h. cc)
]

pub check_max_output_chars-IsCount :
    (raw : Text) (n : Option ℤ) → IsCount (check_max_output_chars raw n).0
unfolding check_max_output_chars
check_max_output_chars-IsCount raw none = tt
check_max_output_chars-IsCount raw (some n) = elim (Bool-cases (ltb_ℤ n (pos 0))) [
  | inl e ↦ rw e tt
  | inr e ↦ rw e (is_count n e)
]
  where
    is_count : (n : ℤ) → ltb_ℤ n (pos 0) ≡ false → IsCount n
    is_count (pos n) h = tt
    is_count (negsuc n) h = ground arith

pub model-filled : (model : Text) → model_problems model ≡ [] → model ≢ []
unfolding model_problems
model-filled [] h = cc
model-filled (c ∷ model) h = λ x. cc

module _ {F : Type 0} (l : Library F) where
  -- A recipient for the audience "direct", and none for the others.
  abbrev pub IsRecipient : Audience → Text → Text → Type 0
  IsRecipient audience instance_url recipient =
      if text_eq audience audience_direct
      then IsHandle (hostname_of (l.parse_url instance_url)) recipient
      else recipient ≡ []

  checked_recipient-Sound :
      (host : Text) (r : Result Text)
      → IsHandleResult host r
      → Sound (IsHandle host) (checked_recipient r)
  unfolding checked_recipient
  checked_recipient-Sound host (ok r) h = λ _. h
  checked_recipient-Sound host (err e) h = λ x. cc

  pub load_recipient-Sound :
      (audience : Audience) (instance_url : Text)
      → Sound (IsRecipient audience instance_url) (load_recipient l audience instance_url)
  unfolding load_recipient
  load_recipient-Sound audience instance_url =
      elim (Bool-cases (text_eq audience audience_direct)) [
        | inl e ↦ rw e (checked_recipient-Sound _ _ (normalize_recipient-IsHandle l _ instance_url))
        | inr e ↦ rw e (λ _. refl)
      ]

  pub validate_url-web :
      (name : String) (raw : Text)
      → problems (validate_url l name raw) ≡ []
      → is_web_url l (l.parse_url raw) ≡ true
  unfolding validate_url
  validate_url-web name raw = elim (Bool-cases (is_web_url l (l.parse_url raw))) [
    | inl e ↦ rw e (λ _. refl)
    | inr e ↦ rw e (λ h. cc)
  ]
