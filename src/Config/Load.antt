-- ===== src/Config/Load.antt =====
-- Load of internal/config/config.go.
pub mod Settings
pub mod Valid
pub mod Timeouts
pub mod Values
pub mod Accepts
pub mod Environment
use Prim.Native.String.{String}
use stocker_informer.Base.{
  ℕ, Bool, true, false, ◌||◌, List, [], ◌∷◌, ◌++◌, Option, none, some, Text, codes, text_eq,
  is_empty, if◌then◌else◌,
}
use stocker_informer.Int.{ℤ, pos, ltb_ℤ, scale, second}
use stocker_informer.Errors.{Error, message, word, str, int, Result, ok, err}
use stocker_informer.Text.{trim_space, to_lower, split, join}
use stocker_informer.Text.Cut.{atoi}
use stocker_informer.Config.{
  Audience, audience_global, audience_local, audience_direct, S3Config, OllamaConfig,
  RabbitMqConfig, default_ollama_system_prompt,
}
use stocker_informer.Config.Env.{
  Library, Checked, problems, parse_bool, get_env, env, positive_setting, validate_url,
}
use stocker_informer.Config.Recipient.{normalize_recipient}
use stocker_informer.Config.Broker.{load_rabbit_mq_config}
use stocker_informer.Config.Checks.{
  kept_parts, normalize_path_prefix, required_of, missing, is_audience, check_audience,
  checked_recipient, check_enabled, check_max_output_chars, model_problems,
}

pub record Config (F : Type 0) : Type 0 where
  pub goto_social_instance : Text
  pub goto_social_user : Text
  pub goto_social_token : Text
  pub goto_social_audience : Audience
  pub goto_social_recipient : Text
  pub s3 : S3Config
  pub ollama : OllamaConfig F
  pub rabbit_mq : RabbitMqConfig

-- What Load returns: a configuration, or the parts of its one error, in their order.
pub data Loaded (F : Type 0) : Type 0 where
  loaded : Config F → Loaded F
  invalid_configuration : List Error → Loaded F

-- The end of Load: any problem makes it an error.
unfoldable pub decide : {F : Type 0} → Config F → List Error → Loaded F
decide cfg [] = loaded cfg
decide cfg (e ∷ es) = invalid_configuration (e ∷ es)

module _ {F : Type 0} (l : Library F) where
  unfoldable pub load_recipient : Audience → Text → Checked Text
  unfolding checked_recipient normalize_recipient
  load_recipient audience instance_url =
      if text_eq audience audience_direct
      then checked_recipient
          (normalize_recipient l (get_env l "GOTOSOCIAL_RECIPIENT" []) instance_url)
      else ([], [])

  unfoldable pub load_s3_timeout : Checked ℤ
  unfolding positive_setting
  load_s3_timeout =
      let (seconds, es) = positive_setting l "S3_TIMEOUT_SECONDS" (pos 10) none in
      (scale seconds second, es)

  unfoldable pub load_enabled : Checked Bool
  unfolding env check_enabled parse_bool
  load_enabled =
      let raw = env l "OLLAMA_ENABLED" [] in
      if is_empty raw then (true, []) else check_enabled raw (parse_bool raw)

  unfoldable pub load_ollama_timeout : Checked ℤ
  unfolding positive_setting
  load_ollama_timeout =
      let (seconds, es) = positive_setting l "OLLAMA_TIMEOUT_SECONDS" (pos 120) (some 3600) in
      (scale seconds second, es)

  unfoldable pub check_temperature : Text → Option F → Checked F
  check_temperature raw none =
      (l.tenths 7, message "OLLAMA_TEMPERATURE must be a number (got %q)" (str raw ∷ []) ∷ [])
  check_temperature raw (some parsed) =
      if l.is_nan parsed || l.is_inf parsed
      then (
        l.tenths 7,
        message "OLLAMA_TEMPERATURE must be a finite number (got %q)" (str raw ∷ []) ∷ [],
      )
      else if l.less parsed (l.tenths 0) || l.less (l.tenths 20) parsed
      then (
        l.tenths 7,
        message "OLLAMA_TEMPERATURE must be between 0 and 2 (got %v)" (str (l.show parsed) ∷ [])
            ∷ [],
      )
      else (parsed, [])

  unfoldable pub load_temperature : Checked F
  unfolding env check_temperature
  load_temperature =
      let raw = env l "OLLAMA_TEMPERATURE" [] in
      if is_empty raw then (l.tenths 7, []) else check_temperature raw (l.parse_float raw)

  unfoldable pub load_max_tokens : Checked ℤ
  unfolding positive_setting
  load_max_tokens = positive_setting l "OLLAMA_MAX_TOKENS" (pos 1024) none

  unfoldable pub load_max_output_chars : Checked ℤ
  unfolding env check_max_output_chars
  load_max_output_chars =
      let raw = env l "OLLAMA_MAX_OUTPUT_CHARS" [] in
      if is_empty raw then (pos 0, []) else check_max_output_chars raw (atoi raw)

  unfoldable pub load_prompt : Text
  unfolding env
  load_prompt =
      let prompt = env l "OLLAMA_SYSTEM_PROMPT" [] in
      if is_empty prompt then default_ollama_system_prompt else prompt

  unfoldable pub load_ollama : Checked (OllamaConfig F)
  unfolding load_enabled load_ollama_timeout load_temperature load_max_tokens load_max_output_chars
      load_prompt model_problems env validate_url
  load_ollama =
      let (enabled, e1) = load_enabled in
      let (timeout, e2) = load_ollama_timeout in
      let (temperature, e3) = load_temperature in
      let (tokens, e4) = load_max_tokens in
      let (chars, e5) = load_max_output_chars in
      let base_url = env l "OLLAMA_BASE_URL" (codes "http://192.168.1.71:11434") in
      let model = env l "OLLAMA_MODEL" (codes "gemma4:26b") in
      (
        record {
          enabled = enabled;
          base_url = base_url;
          model = model;
          system_prompt = load_prompt;
          timeout = timeout;
          temperature = temperature;
          max_tokens = tokens;
          max_output_chars = chars;
        },
        e1
            ++ (e2
                ++ (e3
                    ++ (e4
                        ++ (e5
                            ++ (problems (validate_url l "OLLAMA_BASE_URL" base_url)
                                ++ model_problems model))))),
      )

  unfoldable pub load_s3 : Checked S3Config
  unfolding env load_s3_timeout normalize_path_prefix
  load_s3 =
      let (timeout, es) = load_s3_timeout in
      (
        record {
          endpoint = env l "S3_ENDPOINT" (codes "http://192.168.1.31:3900");
          region = env l "S3_REGION" (codes "us-east-1");
          bucket = env l "S3_BUCKET" [];
          access_key = env l "S3_ACCESS_KEY" [];
          secret_key = env l "S3_SECRET_KEY" [];
          path_prefix = normalize_path_prefix (get_env l "S3_PATH_PREFIX" []);
          timeout = timeout;
        },
        es,
      )

  -- The required variables, and then the two URLs.
  unfoldable pub check_required : Text → Text → Text → S3Config → List Error
  unfolding missing validate_url
  check_required instance_url user token s3 =
      missing (required_of instance_url user token s3)
      ++ ((if is_empty instance_url
            then []
            else problems (validate_url l "GOTOSOCIAL_INSTANCE" instance_url))
          ++ problems (validate_url l "S3_ENDPOINT" s3.endpoint))

  -- The configuration, with every problem that was found.
  unfoldable pub load_checked : Checked (Config F)
  unfolding env load_s3 check_required check_audience load_recipient load_ollama
      load_rabbit_mq_config
  load_checked =
      let instance_url = env l "GOTOSOCIAL_INSTANCE" [] in
      let user = env l "GOTOSOCIAL_USER" [] in
      let token = env l "GOTOSOCIAL_TOKEN" [] in
      let (s3, e2) = load_s3 in
      let e0 = check_required instance_url user token s3 in
      let (audience, e1) = check_audience (to_lower l.table (env l "GOTOSOCIAL_AUDIENCE" [])) in
      let (recipient, e1') = load_recipient audience instance_url in
      let (ollama, e3) = load_ollama in
      let (rabbit_mq, e4) = load_rabbit_mq_config l in
      (
        record {
          goto_social_instance = instance_url;
          goto_social_user = user;
          goto_social_token = token;
          goto_social_audience = audience;
          goto_social_recipient = recipient;
          s3 = s3;
          ollama = ollama;
          rabbit_mq = rabbit_mq;
        },
        e0 ++ (e1 ++ (e1' ++ (e2 ++ (e3 ++ e4)))),
      )

  unfoldable pub load : Loaded F
  unfolding load_checked decide
  load = let (cfg, es) = load_checked in decide cfg es
