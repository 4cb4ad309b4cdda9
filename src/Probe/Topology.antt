-- ===== src/Probe/Topology.antt =====
-- What checkTopology of internal/rabbitmq/probe.go verifies, and that it releases what it opened.
use stocker_informer.Base.{
  ◌≡◌, ap, ◌↔◌, ◌⊎◌, inl, inr, refl, true, false, List, [], ◌∷◌, ◌++◌, Option, none, some,
}
use stocker_informer.Errors.{Error, Result, ok, err}
use stocker_informer.Config.{RabbitMqConfig}
use stocker_informer.Contexts.{Contexts}
use stocker_informer.Effects.{
  Event, channel_opened, channel_closed, connection_closed, exchange_declared, queue_declared,
}
use stocker_informer.Probe.{
  ProbeChannel, ProbeConnection, after_queue, after_exchange, after_channel, check_topology,
}

module _ {W : Type 0} (contexts : Contexts W) where
  -- The exchange and the queue exist, as durable ones of the configured type.
  pub record IsPresent (cfg : RabbitMqConfig) (ch : ProbeChannel W) (w : W) : Type 0 where
    pub exchange :
        (ch.exchange_declare_passive cfg.input_exchange cfg.input_exchange_type true false false
          false w).0
        ≡ none
    pub queue :
        (ch.queue_declare_passive cfg.queue true false false false
          (ch.exchange_declare_passive cfg.input_exchange cfg.input_exchange_type true false false
            false w).1).0
        ≡ none

  -- A channel was opened, and both are present.
  abbrev pub IsVerified : RabbitMqConfig → Result (ProbeChannel W) → W → Type 0
  IsVerified cfg (err e) w = ⊥
  IsVerified cfg (ok ch) w = IsPresent cfg ch w

  -- The last effects of a check: what is released.
  abbrev pub Released : Result (ProbeChannel W) → List Event → Type 0
  Released (err e) es = es ≡ connection_closed ∷ []
  Released (ok ch) es =
      (middle : List Event) × (es
        ≡ channel_opened ∷ (middle ++ channel_closed ∷ connection_closed ∷ []))
      × ((middle ≡ exchange_declared ∷ []) ⊎ (middle ≡ exchange_declared ∷ queue_declared ∷ []))

  after_queue_lem :
      (cfg : RabbitMqConfig) (conn : ProbeConnection W) (ch : ProbeChannel W)
      (failed : Option Error) (w : W)
      → let out = after_queue contexts cfg conn ch failed w in
        ((out.value ≡ none) ↔ (failed ≡ none))
        × (out.events ≡ channel_closed ∷ connection_closed ∷ [])
  unfolding after_queue
  after_queue_lem cfg conn ch none w = ((λ h. refl, λ h. refl), refl)
  after_queue_lem cfg conn ch (some e) w = ((λ h. cc, λ h. cc), refl)

  after_exchange_lem :
      (cfg : RabbitMqConfig) (conn : ProbeConnection W) (ch : ProbeChannel W)
      (failed : Option Error) (w : W)
      → let out = after_exchange contexts cfg conn ch failed w in
        ((out.value ≡ none) ↔ (
          (failed ≡ none)
          × ((ch.queue_declare_passive cfg.queue true false false false w).0 ≡ none)))
        × (middle : List Event) × (out.events ≡ middle ++ channel_closed ∷ connection_closed ∷ [])
        × ((middle ≡ []) ⊎ (middle ≡ queue_declared ∷ []))
  unfolding after_exchange
  after_exchange_lem cfg conn ch (some e) w = ((λ h. cc, λ h. cc h.0), [], refl, inl refl)
  after_exchange_lem cfg conn ch none w =
      let (failed, w') = ch.queue_declare_passive cfg.queue true false false false w in
      let ((to, from), same) = after_queue_lem cfg conn ch failed w' in
      (
        (λ h. (refl, to h), λ h. from h.1),
        queue_declared ∷ [],
        ap (λ es. queue_declared ∷ es) same,
        inr refl,
      )

  after_channel_lem :
      (cfg : RabbitMqConfig) (conn : ProbeConnection W) (ch : Result (ProbeChannel W)) (w : W)
      → let out = after_channel contexts cfg conn ch w in
        ((out.value ≡ none) ↔ IsVerified cfg ch w) × Released ch out.events
  unfolding after_channel
  after_channel_lem cfg conn (err e) w = ((λ h. cc, λ h. absurd h), refl)
  after_channel_lem cfg conn (ok ch) w =
      let (failed, w') =
        ch.exchange_declare_passive cfg.input_exchange cfg.input_exchange_type true false false
          false w in
      let (verdict, middle, same, shape) = after_exchange_lem cfg conn ch failed w' in
      (
        (
          λ h. let (x, q) = verdict.0 h in record { exchange = x; queue = q },
          λ v. verdict.1 (v.exchange, v.queue),
        ),
        (
          exchange_declared ∷ middle,
          ap (λ es. channel_opened ∷ exchange_declared ∷ es) same,
          shape_after shape,
        ),
      )
    where
      shape_after :
          {middle : List Event}
          → (middle ≡ []) ⊎ (middle ≡ queue_declared ∷ [])
          → (exchange_declared ∷ middle ≡ exchange_declared ∷ [])
            ⊎ (exchange_declared ∷ middle ≡ exchange_declared ∷ queue_declared ∷ [])
      shape_after (inl e) = inl (cc)
      shape_after (inr e) = inr (cc)

  -- checkTopology returns nil exactly if a channel could be opened and the exchange and then the
  -- queue are present on it; and whatever it returns, its last acts are to close the channel, if
  -- one was opened, and the connection.
  pub check_topology_verifies :
      (cfg : RabbitMqConfig) (conn : ProbeConnection W) (w : W)
      → let (ch, w') = conn.channel w in
        let out = check_topology contexts cfg conn w in
        ((out.value ≡ none) ↔ IsVerified cfg ch w') × Released ch out.events
  unfolding check_topology
  check_topology_verifies cfg conn w =
      let (ch, w') = conn.channel w in after_channel_lem cfg conn ch w'
