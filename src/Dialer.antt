-- ===== src/Dialer.antt =====
-- The dialers of internal/rabbitmq/session.go and internal/rabbitmq/probe.go, and their adapters
-- of the AMQP client. The clock, the dialer of package net and the AMQP client are parameters.
pub mod Deadline
use stocker_informer.Base.{ℕ, ◌*◌, Option, none, some, Text, [], if◌then◌else◌}
use stocker_informer.Int.{ℤ, pos, ltb_ℤ, ◌+ℤ◌, second}
use stocker_informer.Errors.{Error, message, Result, ok, err}
use stocker_informer.Contexts.{Contexts}
use stocker_informer.Effects.{
  socket_opened, deadline_set, socket_closed, channel_opened, channel_closed, M, ◌>>=◌, ◌>>◌, pure,
  call, look, take, note, unseen,
}
use stocker_informer.Session.{Channel, Connection}
use stocker_informer.Probe.{ProbeChannel, ProbeConnection}

-- net.Conn, as the dialer uses it
pub record NetConn (W : Type 0) : Type 0 where
  pub set_deadline : ℤ → W → Option Error × W
  pub close : W → Option Error × W

abbrev pub heartbeat : ℕ
heartbeat = 10 * second

-- The earlier of a limit and the deadline of a context, if it has one.
unfoldable pub earlier : ℤ → Option ℤ → ℤ
earlier limit none = limit
earlier limit (some d) = if ltb_ℤ d limit then d else limit

module _ {W : Type 0} (contexts : Contexts W) where
  open contexts use {Ctx}

  -- *amqp.Channel: it has the methods of both interfaces.
  pub record AmqpChannel : Type 0 where
    pub as_channel : Channel contexts
    pub as_probe_channel : ProbeChannel W

  -- *amqp.Connection
  pub record AmqpConn : Type 0 where
    pub channel : W → Result AmqpChannel × W
    pub close : W → Option Error × W

  -- What the dialers use of Go's libraries and of the AMQP client. A time is a number of
  -- nanoseconds, which no duration overflows.
  pub record Network : Type 0 where
    -- time.Now
    pub now : W → ℤ
    -- ctx.Deadline
    pub deadline : Ctx → Option ℤ
    -- DialContext of a net.Dialer with a timeout and a deadline
    pub dial_context : ℤ → ℤ → Ctx → Text → Text → W → Result (NetConn W) × W
    -- amqp.DialConfig with a heartbeat and a function Dial
    pub dial_config : Text → ℕ → (Text → Text → M W (Result (NetConn W))) → M W (Result AmqpConn)
    -- the type assertion `ch.(probeChannel)`
    pub as_probe_channel : Channel contexts → Option (ProbeChannel W)

  -- What follows SetDeadline.
  unfoldable pub after_deadline : NetConn W → Option Error → M W (Result (NetConn W))
  after_deadline conn none = pure (ok conn)
  after_deadline conn (some e) = do call socket_closed conn.close; pure (err e)

  -- What follows DialContext.
  unfoldable pub after_tcp_dial : ℤ → Result (NetConn W) → M W (Result (NetConn W))
  unfolding after_deadline
  after_tcp_dial deadline (err e) = pure (err e)
  after_tcp_dial deadline (ok conn) = do
    note socket_opened
    failed ← call (deadline_set deadline) (conn.set_deadline deadline)
    after_deadline conn failed

  -- The function Dial of the AMQP client's configuration.
  unfoldable pub dial_tcp : Network → Ctx → ℤ → ℤ → Text → Text → M W (Result (NetConn W))
  unfolding after_tcp_dial
  dial_tcp net ctx timeout deadline network addr = do
    conn ← take (net.dial_context timeout deadline ctx network addr)
    after_tcp_dial deadline conn

  -- amqpConnection.Channel
  unfoldable pub open_channel : Result AmqpChannel → Result (Channel contexts)
  open_channel (err e) = err e
  open_channel (ok ch) = ok ch.as_channel

  unfoldable pub amqp_connection : AmqpConn → Connection contexts
  unfolding open_channel
  amqp_connection conn = record {
    channel = λ w. let (ch, w') = conn.channel w in (open_channel ch, w');
    close = conn.close;
  }

  -- What follows DialConfig.
  unfoldable pub after_dial_config : Result AmqpConn → Result (Connection contexts)
  unfolding amqp_connection
  after_dial_config (err e) = err e
  after_dial_config (ok conn) = ok (amqp_connection conn)

  unfoldable pub dial_amqp : Network → Ctx → Text → ℤ → M W (Result (Connection contexts))
  unfolding dial_tcp earlier after_dial_config
  dial_amqp net ctx raw_url timeout = do
    now ← look net.now
    let deadline = earlier (now +ℤ timeout) (net.deadline ctx)
    conn ← net.dial_config raw_url heartbeat (dial_tcp net ctx timeout deadline)
    pure (after_dial_config conn)

  -- What probeConn.Channel does with a channel.
  unfoldable pub after_assertion :
      Channel contexts → Option (ProbeChannel W) → M W (Result (ProbeChannel W))
  after_assertion ch (some pc) = pure (ok pc)
  after_assertion ch none = do
    call channel_closed ch.close
    pure (err (message "rabbitmq probe: channel does not support passive declarations" []))

  unfoldable pub after_open : Network → Result (Channel contexts) → M W (Result (ProbeChannel W))
  unfolding after_assertion
  after_open net (err e) = pure (err e)
  after_open net (ok ch) = do note channel_opened; after_assertion ch (net.as_probe_channel ch)

  -- probeConn.Channel
  unfoldable pub open_probe_channel : Network → Connection contexts → M W (Result (ProbeChannel W))
  unfolding after_open
  open_probe_channel net conn = do ch ← take conn.channel; after_open net ch

  unfoldable pub probe_conn : Network → Connection contexts → ProbeConnection W
  unfolding open_probe_channel
  probe_conn net conn = record {
    channel = unseen (open_probe_channel net conn);
    close = conn.close;
  }

  unfoldable pub narrow : Network → Result (Connection contexts) → Result (ProbeConnection W)
  unfolding probe_conn
  narrow net (err e) = err e
  narrow net (ok conn) = ok (probe_conn net conn)

  unfoldable pub dial_probe_amqp : Network → Ctx → Text → ℤ → M W (Result (ProbeConnection W))
  unfolding dial_amqp narrow
  dial_probe_amqp net ctx raw_url timeout = do
    conn ← dial_amqp net ctx raw_url timeout
    pure (narrow net conn)
