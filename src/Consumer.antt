-- ===== src/Consumer.antt =====
-- internal/rabbitmq/consumer.go: the consumer, from one delivery to the supervised loop.
pub mod Publication
pub mod Settled
pub mod Handling
pub mod Settlement
pub mod Loop
pub mod Connect
pub mod Supervisor
pub mod Protocol
use Prim.Native.String.{String}
use stocker_informer.Base.{
  ℕ, zero, suc, ◌+◌, ◌%◌, ◌||◌, Bool, true, false, List, [], ◌∷◌, ◌++◌, Option, none, some, Text,
  codes, is_empty, ◌==◌, if◌then◌else◌,
}
use stocker_informer.Int.{ℤ}
use stocker_informer.Errors.{
  Error, message, wrapped, session_closed, Result, ok, err, is_some, is_summary_not_found,
}
use stocker_informer.Config.{RabbitMqConfig}
use stocker_informer.Contexts.{Contexts}
use stocker_informer.Text.{trim_space}
use stocker_informer.Effects.{
  debug, info, warn, error, channel_opened, exchange_declared, queue_declared, queue_bound, qos_set,
  consuming, channel_closed, connection_closed, summary_read, rewrite_asked, published, slept, M,
  ◌>>=◌, ◌>>◌, pure, log, call, look,
}
use stocker_informer.Session
use stocker_informer.Session.{Delivery, Received, delivery, ended, otherwise, Channel, Connection}
use stocker_informer.Backoff.{backoff_delay}

pub record StockIdentity : Type 0 where
  pub symbol : Text
  pub exchange : Text

-- proto.Unmarshal of a stockstore.v1.Stock: its symbol and its exchange
abbrev pub Unmarshal : Type 0
Unmarshal = List ℕ → Result (Text × Text)

unfoldable pub check_identity : Text → Text → Result StockIdentity
check_identity symbol exchange =
    if is_empty symbol
    then err (message "stock missing symbol field" [])
    else if is_empty exchange
    then err (message "stock missing exchange field" [])
    else ok (record { symbol = symbol; exchange = exchange })

unfoldable pub decode_stock : Unmarshal → List ℕ → Result StockIdentity
unfolding check_identity
decode_stock unmarshal body = elim (unmarshal body) [
  | err e ↦ err (wrapped "unmarshal stock protobuf: %w" [] e)
  | ok (symbol, exchange) ↦ check_identity (trim_space symbol) (trim_space exchange)
]

-- What is published after a rewrite, and whether it is the report.
unfoldable pub choose_text : Text → Result Text → Text × Bool
choose_text text (err e) = (text, false)
choose_text text (ok report) =
    let trimmed = trim_space report in if is_empty trimmed then (text, false) else (trimmed, true)

module _ {W : Type 0} (contexts : Contexts W) where
  open contexts use {Ctx, ctx_err}

  pub record Consumer : Type 0 where
    pub cfg : RabbitMqConfig
    pub unmarshal : Unmarshal
    pub summaries : Ctx → Text → Text → W → Result Text × W
    pub rewriter : Option (Ctx → Text → W → Result Text × W)
    pub publisher : Ctx → Text → W → Option Error × W
    pub dial : Ctx → Text → ℤ → W → Result (Connection contexts) × W
    pub sleep : Ctx → ℕ → W → Option Error × W
    -- the consumer tag: the prefix "stocker-informer-" and the process id
    pub tag : Text

  -- ctx.Err() != nil
  abbrev pub cancelled : Ctx → M W Bool
  cancelled ctx = look (λ w. is_some (ctx_err ctx w))

  unfoldable pub log_settlement_failed : Option Error → M W (Unit {0})
  log_settlement_failed none = pure tt
  log_settlement_failed (some e) = log warn "ack delivery failed"

  unfoldable pub settle : Ctx → Session.Session contexts → Delivery → M W (Unit {0})
  unfolding log_settlement_failed
  settle ctx sess d = do
    stop ← cancelled ctx
    let requeue = Session.nack contexts sess d.delivery_tag true
    let done = Session.ack contexts sess d.delivery_tag
    failed ← if stop then requeue else done
    log_settlement_failed failed

  -- The log line that a rewrite leaves when its output is not used.
  unfoldable pub log_rewrite : Result Text → M W (Unit {0})
  log_rewrite (err e) = log warn "rewrite failed, publishing original summary"
  log_rewrite (ok report) =
      if is_empty (trim_space report)
      then log warn "rewrite returned empty output, publishing original summary"
      else pure tt

  -- The rewrite of handleDelivery: the text to publish and whether it was rewritten.
  unfoldable pub rewrite_step :
      Option (Ctx → Text → W → Result Text × W) → Ctx → Text → M W (Text × Bool)
  unfolding log_rewrite choose_text
  rewrite_step none ctx text = pure (text, false)
  rewrite_step (some rewrite) ctx text = do
    report ← call (rewrite_asked text) (rewrite ctx text)
    log_rewrite report
    pure (choose_text text report)

  -- What follows the call of Publish. The success line comes after the settlement.
  unfoldable pub after_publish :
      Ctx → Session.Session contexts → Delivery → Option Error → M W (Unit {0})
  after_publish ctx sess d (some e) = do log error "publish failed"; settle ctx sess d
  after_publish ctx sess d none = do settle ctx sess d; log info "summary published on GoToSocial"

  unfoldable pub publish_step :
      Consumer → Ctx → Session.Session contexts → Delivery → Text → M W (Unit {0})
  unfolding after_publish
  publish_step c ctx sess d text = do
    failed ← call (published text) (c.publisher ctx text)
    after_publish ctx sess d failed

  -- What handleDelivery does with a trimmed summary.
  unfoldable pub publish_summary :
      Consumer → Ctx → Session.Session contexts → Delivery → Text → M W (Unit {0})
  unfolding rewrite_step publish_step
  publish_summary c ctx sess d [] = do
    log warn "summary is empty, skipping publish"
    settle ctx sess d
  publish_summary c ctx sess d (r ∷ text) = do
    (chosen, rewritten) ← rewrite_step c.rewriter ctx (r ∷ text)
    publish_step c ctx sess d chosen

  unfoldable pub log_read_failed : Error → M W (Unit {0})
  log_read_failed e =
      if is_summary_not_found e
      then log warn "summary not found"
      else log error "read summary failed"

  -- What follows the call of ReadSummary.
  unfoldable pub after_read :
      Consumer → Ctx → Session.Session contexts → Delivery → Result Text → M W (Unit {0})
  unfolding publish_summary log_read_failed
  after_read c ctx sess d (err e) = do log_read_failed e; settle ctx sess d
  after_read c ctx sess d (ok content) = publish_summary c ctx sess d (trim_space content)

  -- What follows the decoding of the body.
  unfoldable pub after_decode :
      Consumer → Ctx → Session.Session contexts → Delivery → Result StockIdentity → M W (Unit {0})
  unfolding after_read
  after_decode c ctx sess d (err e) = do log error "decode stock failed"; settle ctx sess d
  after_decode c ctx sess d (ok identity) = do
    summary ←
        call (summary_read identity.exchange identity.symbol)
          (c.summaries ctx identity.exchange identity.symbol)
    after_read c ctx sess d summary

  unfoldable pub handle_delivery :
      Consumer → Ctx → Session.Session contexts → Delivery → M W (Unit {0})
  unfolding after_decode
  handle_delivery c ctx sess d = do
    stop ← cancelled ctx
    let refused = settle ctx sess d
    let handled = after_decode c ctx sess d (decode_stock c.unmarshal d.body)
    if stop then refused else handled
