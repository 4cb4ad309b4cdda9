-- ===== src/Config/Load/Accepts.antt =====
-- Which environments Load of internal/config/config.go accepts.
use Prim.Native.String.{String}
use mathlib.Core.Option.{some-injective}
use stocker_informer.Base.{
  ℕ, ◌≡◌, ◌≢◌, ◌⊎◌, ◌↔◌, refl, sym, subst, inl, inr, Bool, true, false, ◌||◌, List, [], ◌∷◌, Option,
  none, some, Text, codes, text_eq, is_empty, arith, Bool-cases, if◌then◌else◌,
}
use stocker_informer.Int.{pos}
use stocker_informer.Errors.{Error, Result, ok, err}
use stocker_informer.Text.Cut.{atoi}
use stocker_informer.Config.{audience_direct}
use stocker_informer.Config.Env.{
  Library, Checked, problems, parse_bool, get_env, env, is_web_url, validate_url,
}
use stocker_informer.Config.Recipient.{normalize_recipient}
use stocker_informer.Config.Accepts.{Accepts, both, IsGiven, positive_setting-Accepts}
use stocker_informer.Config.Load.{
  Config, loaded, decide, load_recipient, load_enabled, load_ollama_timeout, check_temperature,
  load_temperature, load_max_tokens, load_max_output_chars, load_ollama,
}
use stocker_informer.Config.Checks.{check_audience, checked_recipient}
use stocker_informer.Config.Load.Values.{
  IsUnsetOr, or_default, check_audience_direct, check_enabled-Accepts,
  check_max_output_chars-Accepts, model_problems-nil_iff,
}

pub decide-loaded_iff :
    {F : Type 0} (cfg : Config F) (es : List Error)
    → ((cfg' : Config F) × (decide cfg es ≡ loaded cfg')) ↔ (es ≡ [])
unfolding decide
decide-loaded_iff cfg [] = (λ h. refl, λ h. (cfg, refl))
decide-loaded_iff cfg (e ∷ es) = (λ h. let (c, q) = h in cc, λ h. cc)

two_guards :
    {A : Type 0} (a b : Bool) (x y : A) (d e : Error) (c : Checked A)
    → c.1 ≡ []
    → Accepts (if a then (x, d ∷ []) else if b then (y, e ∷ []) else c) ((a ≡ false) × (b ≡ false))
two_guards true b x y d e c h = (λ q. cc, λ q. let (p, r) = q in cc)
two_guards false true x y d e c h = (λ q. cc, λ q. let (p, r) = q in cc)
two_guards false false x y d e c h = (λ q. (refl, refl), λ q. h)

module _ {F : Type 0} (l : Library F) where
  -- A temperature from 0 to 2.
  pub record IsTemperature (x : F) : Type 0 where
    pub finite : (l.is_nan x || l.is_inf x) ≡ false
    pub within : (l.less x (l.tenths 0) || l.less (l.tenths 20) x) ≡ false

  check_temperature-Accepts :
      (raw : Text) (o : Option F)
      → Accepts (check_temperature l raw o) ((x : F) × (o ≡ some x) × IsTemperature x)
  unfolding check_temperature
  check_temperature-Accepts raw none = (λ h. cc, λ h. let (x, e, t) = h in cc)
  check_temperature-Accepts raw (some x) =
      let (there, back) =
        two_guards (l.is_nan x || l.is_inf x) (l.less x (l.tenths 0) || l.less (l.tenths 20) x) _ _
          _ _ (x, []) refl in
      (
        λ h. let (a, b) = there h in (x, refl, record { finite = a; within = b }),
        λ (y, e, t).
            let t' = subst IsTemperature (sym (some-injective x y e)) t in
            back (t'.finite, t'.within),
      )

  pub validate_url-nil_iff :
      (name : String) (raw : Text)
      → (problems (validate_url l name raw) ≡ []) ↔ (is_web_url l (l.parse_url raw) ≡ true)
  unfolding validate_url
  validate_url-nil_iff name raw = ground arith

  pub instance-nil_iff :
      (raw : Text)
      → ((if is_empty raw then [] else problems (validate_url l "GOTOSOCIAL_INSTANCE" raw)) ≡ [])
        ↔ IsUnsetOr raw (is_web_url l (l.parse_url raw) ≡ true)
  instance-nil_iff [] = (λ h. inl refl, λ h. refl)
  instance-nil_iff (c ∷ raw) =
      let (there, back) = validate_url-nil_iff "GOTOSOCIAL_INSTANCE" (c ∷ raw) in
      (λ h. inr (there h), λ h. elim h [ inl e ↦ cc | inr p ↦ back p ])

  check_recipient-Accepts :
      (r : Result Text) → Accepts (checked_recipient r) ((t : Text) × (r ≡ ok t))
  unfolding checked_recipient
  check_recipient-Accepts (ok t) = (λ h. (t, refl), λ h. refl)
  check_recipient-Accepts (err e) = (λ h. cc, λ h. let (t, q) = h in cc)

  -- The recipient, which only the audience "direct" has.
  abbrev pub IsAddressed : Text → Text → Type 0
  IsAddressed given instance_url =
      (text_eq given audience_direct ≡ false)
      ⊎ ((t : Text) × (normalize_recipient l (get_env l "GOTOSOCIAL_RECIPIENT" []) instance_url
            ≡ ok t))

  pub load_recipient-Accepts :
      (given instance_url : Text)
      → Accepts
          (load_recipient l (check_audience given).0 instance_url)
          (IsAddressed given instance_url)
  unfolding load_recipient
  load_recipient-Accepts given instance_url = elim (Bool-cases (text_eq given audience_direct)) [
    | inl e ↦
        let (there, back) =
          check_recipient-Accepts
            (normalize_recipient l (get_env l "GOTOSOCIAL_RECIPIENT" []) instance_url) in
        rw (check_audience_direct given, e)
          (λ h. inr (there h), λ h. elim h [ inl q ↦ cc | inr p ↦ back p ])
    | inr e ↦ rw (check_audience_direct given, e) (λ h. inl refl, λ h. refl)
  ]

  -- What Load asks of the environment for the rewriter.
  pub record IsOllamaEnvironment : Type 0 where
    pub enabled_given :
        IsUnsetOr
          (env l "OLLAMA_ENABLED" [])
          ((b : Bool) × (parse_bool (env l "OLLAMA_ENABLED" []) ≡ some b))
    pub timeout_given : IsGiven (some 3600) (env l "OLLAMA_TIMEOUT_SECONDS" [])
    pub temperature_given :
        IsUnsetOr
          (env l "OLLAMA_TEMPERATURE" [])
          ((x : F) × (l.parse_float (env l "OLLAMA_TEMPERATURE" []) ≡ some x) × IsTemperature x)
    pub max_tokens_given : IsGiven none (env l "OLLAMA_MAX_TOKENS" [])
    pub max_output_chars_given :
        IsUnsetOr
          (env l "OLLAMA_MAX_OUTPUT_CHARS" [])
          ((n : ℕ) × (atoi (env l "OLLAMA_MAX_OUTPUT_CHARS" []) ≡ some (pos n)))
    pub base_url_web :
        is_web_url l (l.parse_url (env l "OLLAMA_BASE_URL" (codes "http://192.168.1.71:11434")))
        ≡ true
    pub model_filled : env l "OLLAMA_MODEL" (codes "gemma4:26b") ≢ []

  pub load_ollama-Accepts : Accepts (load_ollama l) IsOllamaEnvironment
  unfolding load_ollama load_enabled load_ollama_timeout load_temperature load_max_tokens
      load_max_output_chars
  load_ollama-Accepts =
      let enabled = env l "OLLAMA_ENABLED" [] in
      let temperature = env l "OLLAMA_TEMPERATURE" [] in
      let chars = env l "OLLAMA_MAX_OUTPUT_CHARS" [] in
      let (there, back) =
        both (or_default enabled true _ (check_enabled-Accepts enabled (parse_bool enabled))) (
          both (positive_setting-Accepts l "OLLAMA_TIMEOUT_SECONDS" (pos 120) (some 3600)) (
            both
              (or_default temperature (l.tenths 7) _
                (check_temperature-Accepts temperature (l.parse_float temperature)))
              (both (positive_setting-Accepts l "OLLAMA_MAX_TOKENS" (pos 1024) none) (
                both
                  (or_default chars (pos 0) _ (check_max_output_chars-Accepts chars (atoi chars)))
                  (both (validate_url-nil_iff "OLLAMA_BASE_URL" _)
                    (model_problems-nil_iff _)))))) in
      (
        λ h.
            let (enabled, (timeout, (temperature, (tokens, (chars, (base_url, model)))))) =
              there h in
            record {
              enabled_given = enabled;
              timeout_given = timeout;
              temperature_given = temperature;
              max_tokens_given = tokens;
              max_output_chars_given = chars;
              base_url_web = base_url;
              model_filled = model;
            },
        λ r. back (
          r.enabled_given,
          (
            r.timeout_given,
            (
              r.temperature_given,
              (r.max_tokens_given, (r.max_output_chars_given, (r.base_url_web, r.model_filled))),
            ),
          ),
        ),
      )
