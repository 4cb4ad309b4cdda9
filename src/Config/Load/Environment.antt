-- ===== src/Config/Load/Environment.antt =====
-- The environments that Load of internal/config/config.go accepts.
use stocker_informer.Base.{◌≡◌, ◌≢◌, true, [], none, Text, codes}
use stocker_informer.Text.{to_lower}
use stocker_informer.Config.Env.{Library, env, is_web_url}
use stocker_informer.Config.Broker.Accepts.{IsBrokerEnvironment}
use stocker_informer.Config.Accepts.{Accepts, IsGiven}
use stocker_informer.Config.Load.{Config}
use stocker_informer.Config.Checks.{is_audience}
use stocker_informer.Config.Load.Accepts.{IsAddressed, IsOllamaEnvironment}
use stocker_informer.Config.Load.Values.{IsUnsetOr}

module _ {F : Type 0} (l : Library F) where
  -- What Load asks of the environment.
  pub record IsEnvironment : Type 0 where
    pub instance_filled : env l "GOTOSOCIAL_INSTANCE" [] ≢ []
    pub user_filled : env l "GOTOSOCIAL_USER" [] ≢ []
    pub token_filled : env l "GOTOSOCIAL_TOKEN" [] ≢ []
    pub bucket_filled : env l "S3_BUCKET" [] ≢ []
    pub access_key_filled : env l "S3_ACCESS_KEY" [] ≢ []
    pub secret_key_filled : env l "S3_SECRET_KEY" [] ≢ []
    pub instance_web : is_web_url l (l.parse_url (env l "GOTOSOCIAL_INSTANCE" [])) ≡ true
    pub endpoint_web :
        is_web_url l (l.parse_url (env l "S3_ENDPOINT" (codes "http://192.168.1.31:3900"))) ≡ true
    pub audience_known :
        IsUnsetOr
          (to_lower l.table (env l "GOTOSOCIAL_AUDIENCE" []))
          (is_audience (to_lower l.table (env l "GOTOSOCIAL_AUDIENCE" [])) ≡ true)
    pub recipient_named :
        IsAddressed l
          (to_lower l.table (env l "GOTOSOCIAL_AUDIENCE" []))
          (env l "GOTOSOCIAL_INSTANCE" [])
    pub s3_timeout_given : IsGiven none (env l "S3_TIMEOUT_SECONDS" [])
    pub ollama : IsOllamaEnvironment l
    pub broker : IsBrokerEnvironment l
