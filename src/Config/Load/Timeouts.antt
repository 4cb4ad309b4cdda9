-- ===== src/Config/Load/Timeouts.antt =====
-- The timeout of the object store that Load of internal/config/config.go computes.
use Prim.Native.String.{String}
use stocker_informer.Base.{
  ℕ, ◌*◌, ◌≤◌, ◌≡◌, ◌≢◌, ◌↔◌, refl, [], ◌∷◌, none, some, Text, arith, subst, ap, sym, ◌∙◌, is_empty,
  if◌then◌else◌,
}
use stocker_informer.Int.{ℤ, pos, scale, second}
use stocker_informer.Text.Cut.{atoi}
use stocker_informer.Text.Cut.Laws.{IsInt, atoi-IsInt}
use stocker_informer.Config.Env.{Library, env, check_max, check_positive, positive_setting}
use stocker_informer.Config.Range.{scale-seconds_iff}
use stocker_informer.Config.Load.{load_s3_timeout}

check_positive_value :
    (name : String) (fallback : ℤ) (raw : Text) (n : ℕ)
    → 1 ≤ n
    → check_positive name fallback none raw (some (pos n)) ≡ (pos n, [])
unfolding check_positive check_max
check_positive_value name fallback raw n h = ground arith

chosen : {A : Type 0} (raw : Text) (x y : A) → raw ≢ [] → (if is_empty raw then x else y) ≡ y
chosen [] x y h = absurd (h refl)
chosen (c ∷ raw) x y h = refl

atoi-filled : (raw : Text) (n : ℤ) → atoi raw ≡ some n → raw ≢ []
unfolding atoi
atoi-filled [] n h = cc
atoi-filled (c ∷ raw) n h = λ x. cc

module _ {F : Type 0} (l : Library F) where
  positive_setting_value :
      (name : String) (fallback : ℤ) (n : ℕ)
      → atoi (env l name []) ≡ some (pos n)
      → 1 ≤ n
      → positive_setting l name fallback none ≡ (pos n, [])
  unfolding positive_setting
  positive_setting_value name fallback n h k =
      chosen (env l name []) _ _ (atoi-filled _ _ h)
      ∙ (ap (check_positive name fallback none (env l name [])) h
          ∙ check_positive_value name fallback (env l name []) n k)

  -- Where S3_TIMEOUT_SECONDS is a positive integer, the timeout of the object store is that number
  -- of seconds exactly if it is at most 9223372036; beyond, the product overflows.
  pub load_s3_timeout_iff :
      (n : ℕ)
      → atoi (env l "S3_TIMEOUT_SECONDS" []) ≡ some (pos n)
      → 1 ≤ n
      → ((load_s3_timeout l).0 ≡ pos (n * second)) ↔ (n ≤ 9_223_372_036)
  unfolding load_s3_timeout
  load_s3_timeout_iff n h k =
      subst (λ s. (scale s.0 second ≡ pos (n * second)) ↔ (n ≤ 9_223_372_036))
        (sym (positive_setting_value "S3_TIMEOUT_SECONDS" (pos 10) n h k))
        (scale-seconds_iff n (subst IsInt h (atoi-IsInt (env l "S3_TIMEOUT_SECONDS" []))))
