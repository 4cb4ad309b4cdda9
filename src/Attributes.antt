-- ===== src/Attributes.antt =====
-- internal/rabbitmq/consumer.go and internal/rabbitmq/probe.go: the attributes of the log lines about
-- a delivery and about the topology, keys and values in turn.
use Prim.Native.String.{String}
use stocker_informer.Base.{ℕ, Bool, List, [], ◌∷◌, Text}
use stocker_informer.Int.{ℤ}
use stocker_informer.Config.{RabbitMqConfig}
use stocker_informer.Config.Env.{Library}
use stocker_informer.Config.Broker.{redacted_amqp_url}
use stocker_informer.Session.{Delivery}

-- What an element of a list of attributes holds: a key, or a value of one of these types.
pub data Attribute : Type 0 where
  key : String → Attribute
  string : Text → Attribute
  int : ℤ → Attribute
  uint : ℕ → Attribute
  bool : Bool → Attribute

abbrev pub delivery_attrs : Delivery → List Attribute
delivery_attrs d =
    key "routing_key"
    ∷ string d.routing_key
    ∷ key "delivery_tag"
    ∷ uint d.delivery_tag
    ∷ key "redelivered"
    ∷ bool d.redelivered
    ∷ []

module _ {F : Type 0} (l : Library F) where
  -- topologyAttrs of the consumer
  unfoldable consumer_topology_attrs : RabbitMqConfig → List Attribute
  unfolding redacted_amqp_url
  consumer_topology_attrs cfg =
      key "broker"
      ∷ string (redacted_amqp_url l cfg.url)
      ∷ key "exchange"
      ∷ string cfg.input_exchange
      ∷ key "exchange_type"
      ∷ string cfg.input_exchange_type
      ∷ key "routing_key"
      ∷ string cfg.input_routing_key
      ∷ key "queue"
      ∷ string cfg.queue
      ∷ key "prefetch"
      ∷ int cfg.prefetch
      ∷ []

  -- topologyAttrs of the probe
  unfoldable probe_topology_attrs : RabbitMqConfig → List Attribute
  unfolding redacted_amqp_url
  probe_topology_attrs cfg =
      key "broker"
      ∷ string (redacted_amqp_url l cfg.url)
      ∷ key "exchange"
      ∷ string cfg.input_exchange
      ∷ key "exchange_type"
      ∷ string cfg.input_exchange_type
      ∷ key "routing_key"
      ∷ string cfg.input_routing_key
      ∷ key "queue"
      ∷ string cfg.queue
      ∷ []
