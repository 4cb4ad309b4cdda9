-- ===== src/Config/Broker/Accepts.antt =====
-- Which RabbitMQ settings loadRabbitMQConfig of internal/config/config.go accepts.
use stocker_informer.Config.Accepts.{
  Accepts, both, problems-nil_iff, IsGiven, positive_setting-Accepts,
}
use Prim.Native.String.{String}
use mathlib.Core.Option.{some-injective}
use stocker_informer.Base.{
  subst, sym, if◌then◌else◌, ◌≡◌, ◌⊎◌, ◌↔◌, refl, inl, inr, Bool, true, false, ◌||◌, ◌&&◌, not, [],
  ◌∷◌, Option, none, some, Text, codes, text_eq, is_empty, arith, Option-cases,
}
use stocker_informer.Int.{pos}
use stocker_informer.Errors.{Error}
use stocker_informer.Text.{trim_space, to_lower}
use stocker_informer.Config.Env.{Url, Library, env}
use stocker_informer.Config.Broker.{
  valid_amqp_port, check_amqp_url, validate_amqp_url, rabbit_mq_url, check_name, rabbit_mq_name,
  is_exchange_type, check_exchange_type, rabbit_mq_exchange_type, rabbit_mq_prefetch,
  rabbit_mq_connect_timeout, load_rabbit_mq_config, max_prefetch, max_connect_timeout_seconds,
  default_url, default_input_exchange, default_input_routing_key, default_queue,
}
use stocker_informer.Config.Broker.Valid.{IsShortName}

-- The name of an exchange, a routing key or a queue: the variable is not set, or holds a name.
abbrev pub IsNamed : Option Text → Type 0
IsNamed o = (o ≡ none) ⊎ ((raw : Text) × (o ≡ some raw) × IsShortName (trim_space raw))

some_error : (b : Bool) (x y : Error) → (if b then some x else some y) ≡ none → ⊥
some_error b x y h = ground arith

guards-none_iff :
    (a b c d : Bool) (x y z : Error)
    → ((if not a then some x else if b then some y else if not c && not d then some z else none)
        ≡ none)
      ↔ ((a ≡ true) × (b ≡ false) × ((c || d) ≡ true))
guards-none_iff a b c d x y z = ground arith

module _ {F : Type 0} (l : Library F) where
  check_name-Accepts :
      (name : String) (value : Text) → Accepts (check_name l name value) (IsShortName value)
  unfolding check_name
  check_name-Accepts name [] = ground arith
  check_name-Accepts name (c ∷ value) = ground arith

  rabbit_mq_name-Accepts :
      (name : String) (fallback : Text)
      → Accepts (rabbit_mq_name l name fallback) (IsNamed (l.lookup_env name))
  unfolding rabbit_mq_name
  rabbit_mq_name-Accepts name fallback = elim (Option-cases (l.lookup_env name)) [
    | inl e ↦ rw (e, rabbit_mq_name) (λ h. inl refl, λ h. refl)
    | inr (raw, e) ↦
        let (there, back) = check_name-Accepts name (trim_space raw) in
        rw (e, rabbit_mq_name)
          (
            λ h. inr (raw, refl, there h),
            λ h. elim h [
              | inl q ↦ cc
              | inr (raw', q, r) ↦
                  back (subst (λ t. IsShortName (trim_space t)) (sym (some-injective raw raw' q)) r)
            ],
          )
  ]

  check_exchange_type-Accepts :
      (value : Text)
      → Accepts (check_exchange_type l value) ((value ≡ []) ⊎ (is_exchange_type value ≡ true))
  unfolding check_exchange_type
  check_exchange_type-Accepts [] = (λ h. inl refl, λ h. refl)
  check_exchange_type-Accepts (c ∷ value) = ground arith

  -- A URL of a broker.
  pub record IsBrokerUrl (u : Url) : Type 0 where
    pub scheme_known :
        (text_eq (to_lower l.table u.scheme) (codes "amqp")
          || text_eq (to_lower l.table u.scheme) (codes "amqps"))
        ≡ true
    pub host_filled : is_empty u.hostname ≡ false
    pub port_valid : (is_empty u.port || valid_amqp_port u.port) ≡ true

  check_amqp_url-none_iff :
      (raw : Text) (o : Option Url)
      → (check_amqp_url l raw o ≡ none) ↔ ((u : Url) × (o ≡ some u) × IsBrokerUrl u)
  unfolding check_amqp_url
  check_amqp_url-none_iff raw none =
      (λ h. absurd (some_error _ _ _ h), λ h. let (u, e, b) = h in cc)
  check_amqp_url-none_iff raw (some u) =
      let (there, back) =
        guards-none_iff _ (is_empty u.hostname) (is_empty u.port) (valid_amqp_port u.port) _ _ _ in
      (
        λ h.
            let (a, b, c) = there h in
            (u, refl, record { scheme_known = a; host_filled = b; port_valid = c }),
        λ (v, e, b).
            let b' = subst IsBrokerUrl (sym (some-injective u v e)) b in
            back (b'.scheme_known, b'.host_filled, b'.port_valid),
      )

  rabbit_mq_url-Accepts :
      Accepts
        (rabbit_mq_url l)
        ((u : Url) × (l.parse_url (env l "RABBITMQ_URL" default_url) ≡ some u) × IsBrokerUrl u)
  unfolding rabbit_mq_url validate_amqp_url
  rabbit_mq_url-Accepts =
      let raw = env l "RABBITMQ_URL" default_url in
      let (p, q) = problems-nil_iff (check_amqp_url l raw (l.parse_url raw)) in
      let (there, back) = check_amqp_url-none_iff raw (l.parse_url raw) in
      (λ h. there (p h), λ h. q (back h))

  -- What loadRabbitMQConfig asks of the environment.
  pub record IsBrokerEnvironment : Type 0 where
    pub url : Url
    pub url_parsed : l.parse_url (env l "RABBITMQ_URL" default_url) ≡ some url
    pub url_valid : IsBrokerUrl url
    pub exchange_named : IsNamed (l.lookup_env "RABBITMQ_INPUT_EXCHANGE")
    pub exchange_type_known :
        (to_lower l.table (env l "RABBITMQ_INPUT_EXCHANGE_TYPE" []) ≡ [])
        ⊎ (is_exchange_type (to_lower l.table (env l "RABBITMQ_INPUT_EXCHANGE_TYPE" [])) ≡ true)
    pub routing_key_named : IsNamed (l.lookup_env "RABBITMQ_INPUT_ROUTING_KEY")
    pub queue_named : IsNamed (l.lookup_env "RABBITMQ_QUEUE")
    pub prefetch_given : IsGiven (some max_prefetch) (env l "RABBITMQ_PREFETCH" [])
    pub connect_timeout_given :
        IsGiven (some max_connect_timeout_seconds) (env l "RABBITMQ_CONNECT_TIMEOUT_SECONDS" [])

  pub load_rabbit_mq_config-Accepts : Accepts (load_rabbit_mq_config l) IsBrokerEnvironment
  unfolding load_rabbit_mq_config rabbit_mq_exchange_type rabbit_mq_prefetch
      rabbit_mq_connect_timeout
  load_rabbit_mq_config-Accepts =
      let (there, back) = both rabbit_mq_url-Accepts (
        both (rabbit_mq_name-Accepts "RABBITMQ_INPUT_EXCHANGE" default_input_exchange) (
          both
            (check_exchange_type-Accepts
              (to_lower l.table (env l "RABBITMQ_INPUT_EXCHANGE_TYPE" [])))
            (both (rabbit_mq_name-Accepts "RABBITMQ_INPUT_ROUTING_KEY" default_input_routing_key) (
              both (rabbit_mq_name-Accepts "RABBITMQ_QUEUE" default_queue) (
                both (positive_setting-Accepts l "RABBITMQ_PREFETCH" (pos 1) (some max_prefetch)) (
                  positive_setting-Accepts l "RABBITMQ_CONNECT_TIMEOUT_SECONDS" (pos 10)
                    (some max_connect_timeout_seconds))))))) in
      (
        λ h.
            let ((u, e, b), (exchange, (kind, (key, (queue, (prefetch, timeout)))))) = there h in
            record {
              url = u;
              url_parsed = e;
              url_valid = b;
              exchange_named = exchange;
              exchange_type_known = kind;
              routing_key_named = key;
              queue_named = queue;
              prefetch_given = prefetch;
              connect_timeout_given = timeout;
            },
        λ r. back (
          (r.url, r.url_parsed, r.url_valid),
          (
            r.exchange_named,
            (
              r.exchange_type_known,
              (r.routing_key_named, (r.queue_named, (r.prefetch_given, r.connect_timeout_given))),
            ),
          ),
        ),
      )
