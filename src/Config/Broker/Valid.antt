-- ===== src/Config/Broker/Valid.antt =====
-- The RabbitMQ settings that loadRabbitMQConfig of internal/config/config.go loads.
use Prim.Native.String.{String}
use stocker_informer.Base.{
  ◌≤◌, ◌≡◌, ◌≢◌, ◌⊎◌, refl, inl, inr, Bool, true, false, ◌||◌, List, [], ◌∷◌, ◌++◌, Option, none,
  some, Text, codes, text_eq, text_eq_iff, arith, Bool-cases, Option-cases, ltb,
}
use stocker_informer.Errors.{Error}
use stocker_informer.Text.{trim_space, byte_len, rune_bytes, to_lower}
use stocker_informer.Config.{RabbitMqConfig}
use stocker_informer.Config.Env.{Library, Checked, problems, env}
use stocker_informer.Config.Range.{InRange, IsSeconds, scale-IsSeconds, positive_setting-InRange}
use stocker_informer.Config.Broker.{
  check_name, rabbit_mq_name, is_exchange_type, check_exchange_type, rabbit_mq_exchange_type,
  validate_amqp_url, rabbit_mq_url, rabbit_mq_prefetch, rabbit_mq_connect_timeout,
  load_rabbit_mq_config, default_queue, default_input_exchange, default_input_routing_key,
}

-- The settings hold no problem: what they hold then.
abbrev pub Sound : {A : Type 0} → (A → Type 0) → Checked A → Type 0
Sound P (a, es) = es ≡ [] → P a

-- A name that AMQP accepts.
abbrev pub IsShortName : Text → Type 0
IsShortName name = (name ≢ []) × (byte_len name ≤ 255)

-- One of the four exchange types.
abbrev pub IsExchangeType : Text → Type 0
IsExchangeType kind =
    (kind ≡ codes "direct")
    ⊎ (kind ≡ codes "topic")
    ⊎ (kind ≡ codes "fanout")
    ⊎ (kind ≡ codes "headers")

check_name-Sound :
    {F : Type 0} (l : Library F) (name : String) (value : Text)
    → Sound IsShortName (check_name l name value)
unfolding check_name
check_name-Sound l name [] = λ h. cc
check_name-Sound l name (c ∷ value) = elim (Bool-cases (ltb 255 (byte_len (c ∷ value)))) [
  | inl e ↦ rw e (λ h. cc)
  | inr e ↦ rw e (λ h. (λ x. cc, ground arith))
]

rabbit_mq_name-Sound :
    {F : Type 0} (l : Library F) (name : String) (fallback : Text)
    → IsShortName fallback
    → Sound IsShortName (rabbit_mq_name l name fallback)
unfolding rabbit_mq_name
rabbit_mq_name-Sound l name fallback h = elim (Option-cases (l.lookup_env name)) [
  | inl e ↦ rw (e, rabbit_mq_name) (λ _. h)
  | inr (raw, e) ↦ rw (e, rabbit_mq_name) (check_name-Sound l name (trim_space raw))
]

four_cases :
    (a b c d : Bool) → (a || b || c || d) ≡ true → (a ≡ true) ⊎ (b ≡ true) ⊎ (c ≡ true) ⊎ (d ≡ true)
four_cases true b c d h = inl refl
four_cases false true c d h = inr (inl refl)
four_cases false false true d h = inr (inr (inl refl))
four_cases false false false d h = inr (inr (inr h))

is_exchange_type-IsExchangeType :
    (value : Text) → is_exchange_type value ≡ true → IsExchangeType value
unfolding is_exchange_type
is_exchange_type-IsExchangeType value h =
    elim (four_cases (same "direct") (same "topic") (same "fanout") (same "headers") h) [
      | inl e ↦ inl ((text_eq_iff _ _).0 e)
      | inr (inl e) ↦ inr (inl ((text_eq_iff _ _).0 e))
      | inr (inr (inl e)) ↦ inr (inr (inl ((text_eq_iff _ _).0 e)))
      | inr (inr (inr e)) ↦ inr (inr (inr ((text_eq_iff _ _).0 e)))
    ]
  where
    same : String → Bool
    same kind = text_eq value (codes kind)

check_exchange_type-Sound :
    {F : Type 0} (l : Library F) (value : Text) → Sound IsExchangeType (check_exchange_type l value)
unfolding check_exchange_type
check_exchange_type-Sound l [] = λ h. inr (inl refl)
check_exchange_type-Sound l (c ∷ value) = elim (Bool-cases (is_exchange_type (c ∷ value))) [
  | inl e ↦ rw e (λ h. is_exchange_type-IsExchangeType (c ∷ value) e)
  | inr e ↦ rw e (λ h. cc)
]

default_exchange_named : IsShortName default_input_exchange
unfolding byte_len rune_bytes
default_exchange_named = (λ x. cc, omega arith)

default_routing_key_named : IsShortName default_input_routing_key
unfolding byte_len rune_bytes
default_routing_key_named = (λ x. cc, omega arith)

default_queue_named : IsShortName default_queue
unfolding byte_len rune_bytes
default_queue_named = (λ x. cc, omega arith)

prefetch-InRange : {F : Type 0} (l : Library F) → InRange (some 65535) (rabbit_mq_prefetch l).0
unfolding rabbit_mq_prefetch
prefetch-InRange l = positive_setting-InRange l _ _ (some 65535) (omega arith, omega arith)

connect_timeout-IsSeconds :
    {F : Type 0} (l : Library F) → IsSeconds 300 (rabbit_mq_connect_timeout l).0
unfolding rabbit_mq_connect_timeout
connect_timeout-IsSeconds l =
    scale-IsSeconds 300 _ (omega arith)
      (positive_setting-InRange l _ _ (some 300) (omega arith, omega arith))

pub append-nil_parts : (xs ys : List Error) → xs ++ ys ≡ [] → (xs ≡ []) × (ys ≡ [])
append-nil_parts [] ys h = (refl, h)
append-nil_parts (x ∷ xs) ys h = cc

pub problems-none : (e : Option Error) → problems e ≡ [] → e ≡ none
problems-none none h = refl
problems-none (some e) h = cc

-- What the RabbitMQ settings of a valid configuration are.
pub record IsBroker {F : Type 0} (l : Library F) (cfg : RabbitMqConfig) : Type 0 where
  pub url_valid : validate_amqp_url l cfg.url ≡ none
  pub exchange_named : IsShortName cfg.input_exchange
  pub exchange_type_known : IsExchangeType cfg.input_exchange_type
  pub routing_key_named : IsShortName cfg.input_routing_key
  pub queue_named : IsShortName cfg.queue
  pub prefetch_in_range : InRange (some 65535) cfg.prefetch
  pub timeout_in_range : IsSeconds 300 cfg.connect_timeout

pub load_rabbit_mq-Sound :
    {F : Type 0} (l : Library F) → Sound (IsBroker l) (load_rabbit_mq_config l)
unfolding load_rabbit_mq_config rabbit_mq_url rabbit_mq_prefetch rabbit_mq_exchange_type
load_rabbit_mq-Sound l h =
    let (h1, t1) = append-nil_parts _ _ h in
    let (h2, t2) = append-nil_parts _ _ t1 in
    let (h3, t3) = append-nil_parts _ _ t2 in
    let (h4, t4) = append-nil_parts _ _ t3 in
    let (h5, t5) =
      append-nil_parts _ ((rabbit_mq_prefetch l).1 ++ (rabbit_mq_connect_timeout l).1) t4 in
    record {
      url_valid = problems-none _ h1;
      exchange_named = rabbit_mq_name-Sound l _ _ default_exchange_named h2;
      exchange_type_known =
          check_exchange_type-Sound l (to_lower l.table (env l "RABBITMQ_INPUT_EXCHANGE_TYPE" []))
            h3;
      routing_key_named = rabbit_mq_name-Sound l _ _ default_routing_key_named h4;
      queue_named = rabbit_mq_name-Sound l _ _ default_queue_named h5;
      prefetch_in_range = prefetch-InRange l;
      timeout_in_range = connect_timeout-IsSeconds l;
    }
