-- ===== src/Build.antt =====
-- The constructors of the parts: New of internal/summarystore/store.go,
-- internal/rabbitmq/consumer.go and internal/messenger/gotosocial_publisher.go, and sleepContext.
-- The AWS library, the timer, the process id and the HTTP client are parameters.
use stocker_informer.Base.{
  ℕ, ◌*◌, Bool, true, List, [], ◌∷◌, ◌++◌, Option, none, some, Text, codes, is_empty, ◌==◌,
  if◌then◌else◌,
}
use stocker_informer.Int.{ℤ, pos, second}
use stocker_informer.Errors.{Error, message, wrapped, Result, ok, err}
use stocker_informer.Contexts.{Contexts}
use stocker_informer.Text.{trim_right}
use stocker_informer.Config.{Audience, S3Config, RabbitMqConfig}
use stocker_informer.Effects.{unseen}
use stocker_informer.Session.{Connection}
use stocker_informer.Store.{Api, Client, new_with_api}
use stocker_informer.Publisher.{Publisher, Values, Response}
use stocker_informer.Consumer.{Consumer, Unmarshal}
use stocker_informer.Dialer.{Network, dial_amqp}

abbrev pub default_region : Text
default_region = codes "us-east-1"

abbrev pub http_timeout : ℕ
http_timeout = 20 * second

-- strings.TrimSuffix for a suffix of one rune
unfoldable pub trim_suffix : Text → ℕ → Text
trim_suffix [] c = []
trim_suffix (d ∷ []) c = if d == c then [] else d ∷ []
trim_suffix (d ∷ e ∷ s) c = d ∷ trim_suffix (e ∷ s) c

unfoldable pub region_of : Text → Text
region_of region = if is_empty region then default_region else region

-- The consumer tag of the process with the given id.
abbrev pub consumer_tag : Text → Text
consumer_tag pid = codes "stocker-informer-" ++ pid

abbrev pub default_to {ℓ} : {A : Type ℓ} → Option A → A → A
default_to none a = a
default_to (some b) a = b

module _ {W : Type 0} (contexts : Contexts W) where
  open contexts use {Ctx, ctx_err}

  -- The AWS library: LoadDefaultConfig with a region and static credentials, and NewFromConfig
  -- with a base endpoint and path-style addressing.
  pub record Aws : Type 1 where
    pub AwsConfig : Type 0
    pub load_default_config : Text → Text → Text → Result AwsConfig
    pub new_from_config : AwsConfig → Text → Bool → Api contexts

  unfoldable pub new_store : Aws → Option S3Config → Result (Client contexts)
  unfolding region_of
  new_store aws none = err (message "summarystore: nil S3 config" [])
  new_store aws (some cfg) =
      elim (aws.load_default_config (region_of cfg.region) cfg.access_key cfg.secret_key) [
        | err e ↦ err (wrapped "summarystore: load aws config: %w" [] e)
        | ok conf ↦
            let api = aws.new_from_config conf (trim_right cfg.endpoint b'/') true in
            new_with_api contexts (some cfg) (some api)
      ]

  -- What the publisher uses of Go's libraries; `send` takes the client's timeout.
  pub record Http : Type 0 where
    pub new_request : Ctx → Text → Text → Option Error
    pub send : ℕ → Ctx → Text → Text → Text → W → Result Response × W
    pub encode : Values → Text
    pub decode_id : List ℕ → Result Text

  unfoldable pub new_publisher : Http → Text → Text → Text → Audience → Text → Publisher contexts
  unfolding trim_suffix
  new_publisher http instance_url username token audience recipient = record {
    instance_url = trim_suffix instance_url b'/';
    username = username;
    token = token;
    audience = audience;
    recipient = recipient;
    new_request = http.new_request;
    send = http.send http_timeout;
    encode = http.encode;
    decode_id = http.decode_id;
  }

  -- The select of sleepContext: whether the timer fired, and not the context's end.
  abbrev pub Wait : Type 0
  Wait = Ctx → ℤ → W → Bool × W

  unfoldable pub sleep_context : Wait → Ctx → ℤ → W → Option Error × W
  sleep_context wait ctx d w =
      let (fired, w') = wait ctx d w in if fired then (none, w') else (ctx_err ctx w', w')

  abbrev pub Dial : Type 0
  Dial = Ctx → Text → ℤ → W → Result (Connection contexts) × W

  abbrev pub Sleep : Type 0
  Sleep = Ctx → ℕ → W → Option Error × W

  module _ (net : Network contexts) (wait : Wait) (unmarshal : Unmarshal) (pid : Text) where
    -- newConsumer: a seam that is nil becomes the production one.
    unfoldable pub new_consumer :
        RabbitMqConfig
        → (Ctx → Text → Text → W → Result Text × W)
        → Option (Ctx → Text → W → Result Text × W)
        → (Ctx → Text → W → Option Error × W)
        → Option Dial
        → Option Sleep
        → Consumer contexts
    unfolding dial_amqp sleep_context
    new_consumer cfg summaries rewriter publisher dial sleep = record {
      cfg = cfg;
      unmarshal = unmarshal;
      summaries = summaries;
      rewriter = rewriter;
      publisher = publisher;
      dial = default_to dial (λ ctx url timeout. unseen (dial_amqp contexts net ctx url timeout));
      sleep = default_to sleep (λ ctx d. sleep_context wait ctx (pos d));
      tag = consumer_tag pid;
    }

    -- New
    unfoldable pub consumer :
        RabbitMqConfig
        → (Ctx → Text → Text → W → Result Text × W)
        → Option (Ctx → Text → W → Result Text × W)
        → (Ctx → Text → W → Option Error × W)
        → Consumer contexts
    unfolding new_consumer
    consumer cfg summaries rewriter publisher =
        new_consumer cfg summaries rewriter publisher
          (some (λ ctx url timeout. unseen (dial_amqp contexts net ctx url timeout)))
          (some (λ ctx d. sleep_context wait ctx (pos d)))
