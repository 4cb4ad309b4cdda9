-- ===== src/Config/Load/Valid.antt =====
-- The configurations that Load of internal/config/config.go returns.
use stocker_informer.Base.{
  ◌≡◌, ◌≢◌, refl, inl, inr, true, List, [], ◌∷◌, none, some, Text, arith, Bool-cases, is_empty,
  if◌then◌else◌,
}
use stocker_informer.Errors.{Error}
use stocker_informer.Text.{to_lower}
use stocker_informer.Text.Cut.{atoi}
use stocker_informer.Config.{default_ollama_system_prompt, S3Config, OllamaConfig}
use stocker_informer.Config.Env.{Library, problems, env, is_web_url, validate_url}
use stocker_informer.Config.Range.{InRange, IsSeconds, scale-IsSeconds, positive_setting-InRange}
use stocker_informer.Config.Broker.Valid.{Sound, IsBroker, load_rabbit_mq-Sound, append-nil_parts}
use stocker_informer.Config.Load.{
  Config, Loaded, loaded, invalid_configuration, load_recipient, load_enabled, load_ollama_timeout,
  load_temperature, load_max_tokens, load_max_output_chars, load_prompt, load_ollama, load_s3,
  check_required, load_checked, decide, load,
}
use stocker_informer.Config.Checks.{missing, check_audience, required_of}
use stocker_informer.Config.Load.Settings.{
  IsAudience, IsCount, IsRecipient, missing-filled, check_audience-Sound,
  check_max_output_chars-IsCount, model-filled, load_recipient-Sound, validate_url-web,
}

module _ {F : Type 0} (l : Library F) where
  -- What a valid Ollama part is.
  pub record IsOllama (o : OllamaConfig F) : Type 0 where
    pub base_url_web : is_web_url l (l.parse_url o.base_url) ≡ true
    pub model_filled : o.model ≢ []
    pub prompt_filled : o.system_prompt ≢ []
    pub timeout_in_range : IsSeconds 3600 o.timeout
    pub max_tokens_in_range : InRange none o.max_tokens
    pub max_output_chars_counts : IsCount o.max_output_chars

  -- What the required settings and the URLs beside them are.
  pub record IsRequired (instance_url user token : Text) (s3 : S3Config) : Type 0 where
    pub instance_filled : instance_url ≢ []
    pub instance_web : is_web_url l (l.parse_url instance_url) ≡ true
    pub user_filled : user ≢ []
    pub token_filled : token ≢ []
    pub bucket_filled : s3.bucket ≢ []
    pub access_key_filled : s3.access_key ≢ []
    pub secret_key_filled : s3.secret_key ≢ []
    pub endpoint_web : is_web_url l (l.parse_url s3.endpoint) ≡ true

  -- What a valid configuration is.
  pub record IsConfig (cfg : Config F) : Type 0 where
    pub required :
        IsRequired cfg.goto_social_instance cfg.goto_social_user cfg.goto_social_token cfg.s3
    pub audience_known : IsAudience cfg.goto_social_audience
    pub recipient_fits :
        IsRecipient l cfg.goto_social_audience cfg.goto_social_instance cfg.goto_social_recipient
    pub ollama_valid : IsOllama cfg.ollama
    pub broker_valid : IsBroker l cfg.rabbit_mq

  instance-web :
      (instance_url : Text)
      → instance_url ≢ []
      → (if is_empty instance_url
          then []
          else problems (validate_url l "GOTOSOCIAL_INSTANCE" instance_url))
        ≡ []
      → is_web_url l (l.parse_url instance_url) ≡ true
  instance-web [] h k = absurd (h refl)
  instance-web (c ∷ s) h k = validate_url-web l "GOTOSOCIAL_INSTANCE" (c ∷ s) k

  check_required-IsRequired :
      (instance_url user token : Text) (s3 : S3Config)
      → check_required l instance_url user token s3 ≡ []
      → IsRequired instance_url user token s3
  unfolding check_required
  check_required-IsRequired instance_url user token s3 h =
      let (h0, t) = append-nil_parts (missing (required_of instance_url user token s3)) _ h in
      let (h1, h2) =
        append-nil_parts
          (if is_empty instance_url
            then []
            else problems (validate_url l "GOTOSOCIAL_INSTANCE" instance_url))
          _ t in
      let filled = missing-filled (required_of instance_url user token s3) h0 in
      let (f0, g1) = filled in
      let (f1, g2) = g1 in
      let (f2, g3) = g2 in
      let (f3, g4) = g3 in
      let (f4, g5) = g4 in
      let (f5, none_left) = g5 in
      record {
        instance_filled = f0;
        instance_web = instance-web instance_url f0 h1;
        user_filled = f1;
        token_filled = f2;
        bucket_filled = f3;
        access_key_filled = f4;
        secret_key_filled = f5;
        endpoint_web = validate_url-web l "S3_ENDPOINT" s3.endpoint h2;
      }

  load_prompt-filled : load_prompt l ≢ []
  unfolding load_prompt
  load_prompt-filled = prompt_of (env l "OLLAMA_SYSTEM_PROMPT" [])
    where
      prompt_of : (s : Text) → (if is_empty s then default_ollama_system_prompt else s) ≢ []
      prompt_of [] h = cc
      prompt_of (c ∷ s) h = cc

  ollama_timeout-IsSeconds : IsSeconds 3600 (load_ollama_timeout l).0
  unfolding load_ollama_timeout
  ollama_timeout-IsSeconds =
      scale-IsSeconds 3600 _ (omega arith)
        (positive_setting-InRange l _ _ (some 3600) (omega arith, omega arith))

  max_tokens-InRange : InRange none (load_max_tokens l).0
  unfolding load_max_tokens
  max_tokens-InRange = positive_setting-InRange l _ _ none (omega arith)

  max_output_chars-IsCount : IsCount (load_max_output_chars l).0
  unfolding load_max_output_chars
  max_output_chars-IsCount = elim (Bool-cases (is_empty (env l "OLLAMA_MAX_OUTPUT_CHARS" []))) [
    | inl e ↦ rw e tt
    | inr e ↦ rw e (check_max_output_chars-IsCount _ (atoi (env l "OLLAMA_MAX_OUTPUT_CHARS" [])))
  ]

  load_ollama-Sound : Sound IsOllama (load_ollama l)
  unfolding load_ollama
  load_ollama-Sound h =
      let (h1, t1) = append-nil_parts (load_enabled l).1 _ h in
      let (h2, t2) = append-nil_parts (load_ollama_timeout l).1 _ t1 in
      let (h3, t3) = append-nil_parts (load_temperature l).1 _ t2 in
      let (h4, t4) = append-nil_parts (load_max_tokens l).1 _ t3 in
      let (h5, t5) = append-nil_parts (load_max_output_chars l).1 _ t4 in
      let (h6, h7) = append-nil_parts _ _ t5 in
      record {
        base_url_web = validate_url-web l "OLLAMA_BASE_URL" _ h6;
        model_filled = model-filled _ h7;
        prompt_filled = load_prompt-filled;
        timeout_in_range = ollama_timeout-IsSeconds;
        max_tokens_in_range = max_tokens-InRange;
        max_output_chars_counts = max_output_chars-IsCount;
      }

  -- A configuration is valid where Load accepts it, and a rejection names a problem.
  abbrev pub IsLoaded : Loaded F → Type 0
  IsLoaded (loaded cfg) = IsConfig cfg
  IsLoaded (invalid_configuration es) = es ≢ []

  decide-IsLoaded :
      (cfg : Config F) (es : List Error) → Sound IsConfig (cfg, es) → IsLoaded (decide cfg es)
  unfolding decide
  decide-IsLoaded cfg [] h = h refl
  decide-IsLoaded cfg (e ∷ es) h = λ x. cc

  load_checked-Sound : Sound IsConfig (load_checked l)
  unfolding load_checked load_s3 check_required
  load_checked-Sound h =
      let instance_url = env l "GOTOSOCIAL_INSTANCE" [] in
      let given = to_lower l.table (env l "GOTOSOCIAL_AUDIENCE" []) in
      let audience = check_audience given in
      let (h0, t0) =
        append-nil_parts
          (check_required l instance_url (env l "GOTOSOCIAL_USER" []) (env l "GOTOSOCIAL_TOKEN" [])
            (load_s3 l).0)
          _ h in
      let (h1, t1) = append-nil_parts audience.1 _ t0 in
      let (h2, t2) = append-nil_parts (load_recipient l audience.0 instance_url).1 _ t1 in
      let (h3, t3) = append-nil_parts (load_s3 l).1 _ t2 in
      let (h4, h5) = append-nil_parts (load_ollama l).1 _ t3 in
      record {
        required = check_required-IsRequired instance_url _ _ (load_s3 l).0 h0;
        audience_known = check_audience-Sound given h1;
        recipient_fits = load_recipient-Sound l audience.0 instance_url h2;
        ollama_valid = load_ollama-Sound h4;
        broker_valid = load_rabbit_mq-Sound l h5;
      }

  -- Load returns a configuration that is valid, or at least one problem. What is required is not
  -- empty; the URLs are absolute; the audience is one of three, and names a recipient exactly for
  -- "direct"; the exchange type is one of four, and the AMQP names have from 1 to 255 bytes; the
  -- prefetch is from 1 to 65535; and the timeouts of Ollama and of the broker connection are 1 to
  -- 3600 and 1 to 300 seconds, free of overflow.
  pub load-IsLoaded : IsLoaded (load l)
  unfolding load
  load-IsLoaded = decide-IsLoaded _ _ load_checked-Sound
