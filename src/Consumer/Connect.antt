-- ===== src/Consumer/Connect.antt =====
-- connect of internal/rabbitmq/consumer.go: dial, channel, topology, QoS and consume.
pub mod Laws
use stocker_informer.Base.{ℕ, Bool, true, false, List, [], ◌∷◌, Option, none, some, Text}
use stocker_informer.Errors.{Error, Result, ok, err}
use stocker_informer.Contexts.{Contexts}
use stocker_informer.Effects.{
  Event, connection_opened, channel_opened, exchange_declared, queue_declared, queue_bound, qos_set,
  consuming, channel_closed, connection_closed, M, ◌>>=◌, ◌>>◌, pure, call, take, note,
}
use stocker_informer.Session
use stocker_informer.Session.{Deliveries, Channel, Connection}
use stocker_informer.Consumer.{Consumer}

module _ {W : Type 0} (contexts : Contexts W) where
  open contexts use {Ctx}

  abbrev pub Connected : Type 0
  Connected = Result (Session.Session contexts)

  -- The closure `fail`: release the channel, then the connection.
  unfoldable pub fail : Connection contexts → Channel contexts → Error → M W Connected
  fail conn ch e = do call channel_closed ch.close; call connection_closed conn.close; pure (err e)

  unfoldable pub after_step :
      Connection contexts → Channel contexts → M W Connected → Option Error → M W Connected
  unfolding fail
  after_step conn ch next none = next
  after_step conn ch next (some e) = fail conn ch e

  -- One fallible call on the channel, and what comes after it.
  unfoldable pub step :
      Connection contexts
      → Channel contexts
      → Event
      → (W → Option Error × W)
      → M W Connected
      → M W Connected
  unfolding after_step
  step conn ch event f next = do failed ← call event f; after_step conn ch next failed

  unfoldable pub after_consume :
      Connection contexts → Channel contexts → Text → Result (Deliveries contexts) → M W Connected
  unfolding fail
  after_consume conn ch tag (err e) = fail conn ch e
  after_consume conn ch tag (ok deliveries) = do
    note consuming
    pure (ok (record { conn = conn; ch = ch; deliveries = deliveries; tag = tag; closed = false }))

  unfoldable pub start_consuming :
      Consumer contexts → Connection contexts → Channel contexts → M W Connected
  unfolding after_consume
  start_consuming c conn ch = do
    deliveries ← take (ch.consume c.cfg.queue c.tag false false false false)
    after_consume conn ch c.tag deliveries

  -- The topology: exchange, queue and binding are durable and declared on every connect.
  unfoldable pub set_up : Consumer contexts → Connection contexts → Channel contexts → M W Connected
  unfolding step start_consuming
  set_up c conn ch =
      step conn ch exchange_declared
        (ch.exchange_declare c.cfg.input_exchange c.cfg.input_exchange_type true false false false)
        (step conn ch queue_declared (ch.queue_declare c.cfg.queue true false false false) (
          step conn ch queue_bound
            (ch.queue_bind c.cfg.queue c.cfg.input_routing_key c.cfg.input_exchange false)
            (step conn ch qos_set (ch.qos c.cfg.prefetch 0 false) (start_consuming c conn ch))))

  unfoldable pub after_channel :
      Consumer contexts → Connection contexts → Result (Channel contexts) → M W Connected
  unfolding set_up
  after_channel c conn (err e) = do call connection_closed conn.close; pure (err e)
  after_channel c conn (ok ch) = do note channel_opened; set_up c conn ch

  unfoldable pub after_dial : Consumer contexts → Result (Connection contexts) → M W Connected
  unfolding after_channel
  after_dial c (err e) = pure (err e)
  after_dial c (ok conn) = do
    note connection_opened
    ch ← take conn.channel
    after_channel c conn ch

  unfoldable pub connect : Consumer contexts → Ctx → M W Connected
  unfolding after_dial
  connect c ctx = do conn ← take (c.dial ctx c.cfg.url c.cfg.connect_timeout); after_dial c conn
