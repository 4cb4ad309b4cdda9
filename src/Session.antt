-- ===== src/Session.antt =====
-- internal/rabbitmq/session.go: a session owns a connection, a channel and a stream of deliveries.
-- The mutex makes each method one step; `W` is the state of the world, the broker included.
pub mod Laws
pub mod Callers
use stocker_informer.Base.{ℕ, Bool, true, false, List, Option, none, some, Text, if◌then◌else◌}
use stocker_informer.Int.{ℤ}
use stocker_informer.Errors.{Error, session_closed, joined, Result}
use stocker_informer.Contexts.{Contexts}
use stocker_informer.Effects.{
  acked, nacked, consumer_cancelled, channel_closed, connection_closed, M, ◌>>=◌, ◌>>◌, pure, call,
}

-- amqp.Delivery: the fields that the program reads
pub record Delivery : Type 0 where
  pub body : List ℕ
  pub routing_key : Text
  pub delivery_tag : ℕ
  pub redelivered : Bool

-- What a receive from the deliveries yields: a delivery, the end of the stream, or the other case
-- of the `select` that it stands in.
pub data Received : Type 0 where
  delivery : Delivery → Received
  ended : Received
  otherwise : Received

-- errors.Join
abbrev pub join_errors : Option Error → Option Error → Option Error
join_errors none e = e
join_errors (some d) none = some d
join_errors (some d) (some e) = some (joined d e)

module _ {W : Type 0} (contexts : Contexts W) where
  open contexts use {Ctx}

  -- <-chan amqp.Delivery: `select` waits for a delivery or for the context, and `poll` does not wait
  pub record Deliveries : Type 0 where
    pub select : Ctx → W → Received × W
    pub poll : W → Received × W

  -- the interface `channel`
  pub record Channel : Type 0 where
    pub exchange_declare : Text → Text → Bool → Bool → Bool → Bool → W → Option Error × W
    pub queue_declare : Text → Bool → Bool → Bool → Bool → W → Option Error × W
    pub queue_bind : Text → Text → Text → Bool → W → Option Error × W
    pub qos : ℤ → ℕ → Bool → W → Option Error × W
    pub consume : Text → Text → Bool → Bool → Bool → Bool → W → Result Deliveries × W
    pub cancel : Text → Bool → W → Option Error × W
    pub ack : ℕ → Bool → W → Option Error × W
    pub nack : ℕ → Bool → Bool → W → Option Error × W
    pub close : W → Option Error × W

  -- the interface `connection`
  pub record Connection : Type 0 where
    pub channel : W → Result Channel × W
    pub close : W → Option Error × W

  pub record Session : Type 0 where
    pub conn : Connection
    pub ch : Channel
    pub deliveries : Deliveries
    pub tag : Text
    pub closed : Bool

  unfoldable pub ack : Session → ℕ → M W (Option Error)
  ack s tag = if s.closed then pure (some session_closed) else call (acked tag) (s.ch.ack tag false)

  unfoldable pub nack : Session → ℕ → Bool → M W (Option Error)
  nack s tag requeue =
      if s.closed
      then pure (some session_closed)
      else call (nacked tag requeue) (s.ch.nack tag false requeue)

  -- The error of Cancel is dropped.
  unfoldable pub cancel_consumer : Session → M W (Unit {0})
  cancel_consumer s =
      if s.closed
      then pure tt
      else do call (consumer_cancelled s.tag) (s.ch.cancel s.tag false); pure tt

  -- Returns the session with its flag set, and the error.
  unfoldable pub close : Session → M W (Session × Option Error)
  close s = if s.closed then pure (s, none) else do
    ch_err ← call channel_closed s.ch.close
    conn_err ← call connection_closed s.conn.close
    pure (record s { closed = true }, join_errors ch_err conn_err)
