-- ===== src/Config/Checks.antt =====
-- The checks of Load of internal/config/config.go on single values.
use Prim.Native.String.{String}
use stocker_informer.Base.{
  Bool, true, ◌||◌, List, [], ◌∷◌, Option, none, some, Text, text_eq, is_empty, if◌then◌else◌,
}
use stocker_informer.Int.{ℤ, pos, ltb_ℤ}
use stocker_informer.Errors.{Error, message, word, str, int, Result, ok, err}
use stocker_informer.Text.{trim_space, split, join}
use stocker_informer.Config.{Audience, audience_global, audience_local, audience_direct, S3Config}
use stocker_informer.Config.Env.{Checked}

-- The loop of normalizePrefix: keep the parts that are not empty.
unfoldable pub kept_parts : List Text → List Text
kept_parts [] = []
kept_parts (part ∷ parts) =
    let rest = kept_parts parts in if is_empty part then rest else part ∷ rest

unfoldable pub normalize_path_prefix : Text → Text
unfolding kept_parts
normalize_path_prefix raw = join (kept_parts (split (trim_space raw) b'/')) b'/'

-- The list `required`.
abbrev pub required_of : Text → Text → Text → S3Config → List (String × Text)
required_of instance_url user token s3 =
    ("GOTOSOCIAL_INSTANCE", instance_url)
    ∷ ("GOTOSOCIAL_USER", user)
    ∷ ("GOTOSOCIAL_TOKEN", token)
    ∷ ("S3_BUCKET", s3.bucket)
    ∷ ("S3_ACCESS_KEY", s3.access_key)
    ∷ ("S3_SECRET_KEY", s3.secret_key)
    ∷ []

-- The loop over the required variables.
unfoldable pub missing : List (String × Text) → List Error
missing [] = []
missing ((name, value) ∷ required) =
    let rest = missing required in
    if is_empty value
    then message "%s is required and must be non-empty" (word name ∷ []) ∷ rest
    else rest

-- The cases of the switch on the audience.
unfoldable pub is_audience : Audience → Bool
is_audience audience =
    text_eq audience audience_global
    || text_eq audience audience_local
    || text_eq audience audience_direct

unfoldable pub check_audience : Text → Checked Audience
unfolding is_audience
check_audience given =
    let audience = if is_empty given then audience_global else given in
    if is_audience audience then (audience, []) else (
      [],
      message "GOTOSOCIAL_AUDIENCE must be one of global|local|direct (got %q)" (str audience ∷ [])
          ∷ [],
    )

-- What Load makes of the result of normalizeRecipient.
unfoldable pub checked_recipient : Result Text → Checked Text
checked_recipient (ok recipient) = (recipient, [])
checked_recipient (err e) = ([], e ∷ [])

unfoldable pub check_enabled : Text → Option Bool → Checked Bool
check_enabled raw none =
    (true, message "OLLAMA_ENABLED must be a boolean (got %q)" (str raw ∷ []) ∷ [])
check_enabled raw (some b) = (b, [])

unfoldable pub check_max_output_chars : Text → Option ℤ → Checked ℤ
check_max_output_chars raw none =
    (pos 0, message "OLLAMA_MAX_OUTPUT_CHARS must be an integer (got %q)" (str raw ∷ []) ∷ [])
check_max_output_chars raw (some n) =
    if ltb_ℤ n (pos 0)
    then (pos 0, message "OLLAMA_MAX_OUTPUT_CHARS must be >= 0 (got %d)" (int n ∷ []) ∷ [])
    else (n, [])

unfoldable pub model_problems : Text → List Error
model_problems model =
    if is_empty model then message "OLLAMA_MODEL is required and must be non-empty" [] ∷ [] else []
