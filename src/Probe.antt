-- ===== src/Probe.antt =====
-- internal/rabbitmq/probe.go: the readiness probe's loop and its check of the topology. The loop
-- takes fuel for its rounds; its result says whether it returned, and gives its variables.
pub mod Phases
pub mod Readiness
pub mod Delays
pub mod Topology
pub mod Attempt
use stocker_informer.Base.{
  ℕ, zero, suc, ◌+◌, ◌*◌, ◌%◌, ◌||◌, Bool, true, false, List, [], ◌∷◌, Option, none, some, Text,
  ◌==◌, if◌then◌else◌,
}
use stocker_informer.Int.{ℤ, pos, pos_part, min_ℤ, scale, second}
use stocker_informer.Errors.{Error, wrapped, str, Result, ok, err, is_some}
use stocker_informer.Config.{RabbitMqConfig}
use stocker_informer.Contexts.{Contexts}
use stocker_informer.Effects.{
  Level, debug, info, warn, became_ready, slept, channel_opened, channel_closed, connection_closed,
  exchange_declared, queue_declared, M, ◌>>=◌, ◌>>◌, pure, log, call, look, take, note,
}
use stocker_informer.Backoff.{backoff_initial, backoff_max}

abbrev pub probe_healthy_every : ℕ
probe_healthy_every = 60 * second

-- The interfaces probeChannel and probeConnection: passive declarations only.
pub record ProbeChannel (W : Type 0) : Type 0 where
  pub exchange_declare_passive : Text → Text → Bool → Bool → Bool → Bool → W → Option Error × W
  pub queue_declare_passive : Text → Bool → Bool → Bool → Bool → W → Option Error × W
  pub close : W → Option Error × W

pub record ProbeConnection (W : Type 0) : Type 0 where
  pub channel : W → Result (ProbeChannel W) × W
  pub close : W → Option Error × W

-- The variables of Run.
pub record Status : Type 0 where
  pub ready : Bool
  pub lost : Bool
  pub attempts : ℕ
  pub retry_delay : ℤ

-- How a loop stands: whether it returned, and its variables.
abbrev pub Progress : Type 0
Progress = Bool × Status

-- The level of the log line of a failed attempt: the first and every tenth are loud.
abbrev pub failure_level : ℕ → Level
failure_level attempts = if attempts == 1 || attempts % 10 == 0 then warn else debug

module _ {W : Type 0} (contexts : Contexts W) where
  open contexts use {Ctx, ctx_err}

  -- `check` is the method Check, and `on_ready` says whether the callback is set.
  pub record Probe : Type 0 where
    pub cfg : RabbitMqConfig
    pub check : Ctx → W → Option Error × W
    pub sleep : Ctx → ℤ → W → Option Error × W
    pub retry_initial : ℤ
    pub retry_max : ℤ
    pub healthy_every : ℤ

  -- newProbe with its production defaults.
  unfoldable pub new_probe :
      RabbitMqConfig → (Ctx → W → Option Error × W) → (Ctx → ℤ → W → Option Error × W) → Probe
  new_probe cfg check sleep = record {
    cfg = cfg;
    check = check;
    sleep = sleep;
    retry_initial = pos backoff_initial;
    retry_max = pos backoff_max;
    healthy_every = pos probe_healthy_every;
  }

  unfoldable pub initial_status : Probe → Status
  initial_status p = record {
    ready = false;
    lost = false;
    attempts = 0;
    retry_delay = p.retry_initial;
  }

  -- The switch after a failed check, by `ready` and `lost`.
  unfoldable pub note_failure : Bool → Bool → Status → M W Status
  note_failure false lost st = do
    log (failure_level (st.attempts + 1)) "rabbitmq connectivity probe failed"
    pure (record st { attempts = st.attempts + 1 })
  note_failure true false st = do
    log warn "rabbitmq connectivity lost"
    pure (record st { lost = true })
  note_failure true true st = do log debug "rabbitmq connectivity probe failed"; pure st

  unfoldable pub call_back : Bool → M W (Unit {0})
  call_back false = pure tt
  call_back true = note became_ready

  -- The switch after a check that succeeded.
  unfoldable pub note_success : Bool → Bool → Bool → Status → M W Status
  unfolding call_back
  note_success on_ready false lost st = do
    log info "rabbitmq connectivity verified"
    call_back on_ready
    pure (record st { ready = true })
  note_success on_ready true true st = do
    log info "rabbitmq connectivity restored"
    pure (record st { lost = false })
  note_success on_ready true false st = pure st

  unfoldable pub after_sleep :
      (Status → M W Progress) → Status → Status → Option Error → M W Progress
  after_sleep next now later none = next later
  after_sleep next now later (some e) = pure (true, now)

  -- The part of a round that follows a failed check.
  unfoldable pub failed_round : Probe → Ctx → (Status → M W Progress) → Status → M W Progress
  unfolding note_failure after_sleep scale
  failed_round p ctx next st = do
    st' ← note_failure st.ready st.lost st
    failed ← call (slept (pos_part st'.retry_delay)) (p.sleep ctx st'.retry_delay)
    after_sleep next st' (record st' { retry_delay = min_ℤ (scale st'.retry_delay 2) p.retry_max })
        failed

  -- The part of a round that follows a check that succeeded.
  unfoldable pub passed_round : Probe → Ctx → Bool → (Status → M W Progress) → Status → M W Progress
  unfolding note_success after_sleep
  passed_round p ctx on_ready next st = do
    st' ← note_success on_ready st.ready st.lost st
    let st'' = record st' { retry_delay = p.retry_initial }
    failed ← call (slept (pos_part p.healthy_every)) (p.sleep ctx p.healthy_every)
    after_sleep next st'' st'' failed

  unfoldable pub after_check :
      Probe → Ctx → Bool → (Status → M W Progress) → Status → Option Error → M W Progress
  unfolding failed_round passed_round
  after_check p ctx on_ready next st (some e) = failed_round p ctx next st
  after_check p ctx on_ready next st none = passed_round p ctx on_ready next st

  unfoldable pub rounds : ℕ → Probe → Ctx → Bool → Status → M W Progress
  unfolding after_check
  rounds zero p ctx on_ready st w = pure (false, st) w
  rounds (suc n) p ctx on_ready st w =
      (do
        over ← look (λ w'. is_some (ctx_err ctx w'))
        let round = do
          failed ← take (p.check ctx)
          after_check p ctx on_ready (rounds n p ctx on_ready) st failed
        if over then pure (true, st) else round)
        w

  unfoldable pub run : ℕ → Probe → Ctx → Bool → M W Progress
  unfolding rounds initial_status
  run n p ctx on_ready = rounds n p ctx on_ready (initial_status p)

  -- The deferred closes of checkTopology: the channel, then the connection.
  unfoldable pub release : ProbeConnection W → ProbeChannel W → Option Error → M W (Option Error)
  release conn ch result = do
    call channel_closed ch.close
    call connection_closed conn.close
    pure result

  unfoldable pub after_queue :
      RabbitMqConfig → ProbeConnection W → ProbeChannel W → Option Error → M W (Option Error)
  unfolding release
  after_queue cfg conn ch none = release conn ch none
  after_queue cfg conn ch (some e) =
      release conn ch (some (wrapped "queue %q is unavailable: %w" (str cfg.queue ∷ []) e))

  unfoldable pub after_exchange :
      RabbitMqConfig → ProbeConnection W → ProbeChannel W → Option Error → M W (Option Error)
  unfolding after_queue
  after_exchange cfg conn ch (some e) =
      release conn ch
        (some (wrapped "exchange %q is unavailable: %w" (str cfg.input_exchange ∷ []) e))
  after_exchange cfg conn ch none = do
    failed ← call queue_declared (ch.queue_declare_passive cfg.queue true false false false)
    after_queue cfg conn ch failed

  unfoldable pub after_channel :
      RabbitMqConfig → ProbeConnection W → Result (ProbeChannel W) → M W (Option Error)
  unfolding after_exchange
  after_channel cfg conn (err e) = do
    call connection_closed conn.close
    pure (some (wrapped "open probe channel: %w" [] e))
  after_channel cfg conn (ok ch) = do
    note channel_opened
    failed ← call exchange_declared (
        ch.exchange_declare_passive cfg.input_exchange cfg.input_exchange_type true false false
          false)
    after_exchange cfg conn ch failed

  unfoldable pub check_topology : RabbitMqConfig → ProbeConnection W → M W (Option Error)
  unfolding after_channel
  check_topology cfg conn = do ch ← take conn.channel; after_channel cfg conn ch
