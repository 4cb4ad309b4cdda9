-- ===== src/Server.antt =====
-- cmd/server/main.go: `run`, which builds the parts, starts the probe and the HTTP server beside the
-- consumer, and waits for the consumer; and `main`. They take the fuel of the consumer's Run.
pub mod Status
pub mod Exits
pub mod Source
pub mod Keys
use stocker_informer.Base.{ℕ, Bool, true, false, List, [], Option, none, some, Text, if◌then◌else◌}
use stocker_informer.Errors.{Error, wrapped, Result, ok, err}
use stocker_informer.Contexts.{Contexts}
use stocker_informer.Effects.{
  info, error, probe_started, server_started, M, ◌>>=◌, ◌>>◌, pure, log, take, note, unseen,
}
use stocker_informer.Config.{RabbitMqConfig}
use stocker_informer.Config.Env.{Library}
use stocker_informer.Config.Load.{Config, Loaded, loaded, invalid_configuration, load}
use stocker_informer.Store
use stocker_informer.Publisher.{publish}
use stocker_informer.Rewriter
use stocker_informer.Consumer.{Consumer, Unmarshal}
use stocker_informer.Consumer.Supervisor.{Ran}
use stocker_informer.Consumer.Supervisor
use stocker_informer.Probe.{Probe, new_probe}
use stocker_informer.Dialer.{Network}
use stocker_informer.Build.{Aws, Http, Wait, sleep_context, new_store, new_publisher, consumer}

-- How `run` ended: with the error of Load, wrapped, of which these are the parts; or with an error
-- or nil; or it is still running.
pub data Exit : Type 0 where
  load_failed : List Error → Exit
  returned : Option Error → Exit
  running : Exit

-- The status with which the process exits, once it does.
abbrev pub exit_code : Exit → Option ℕ
exit_code (load_failed es) = some 1
exit_code (returned (some e)) = some 1
exit_code (returned none) = some 0
exit_code running = none

module _ {W : Type 0} (contexts : Contexts W) (F : Type 0) where
  open contexts use {Ctx}

  -- What the program uses of its surroundings.
  pub record Platform : Type 1 where
    pub library : Library F
    -- signal.NotifyContext and its function `stop`
    pub notify_context : W → Ctx × W
    pub stop : Ctx → W → W
    pub aws : Aws contexts
    pub http : Http contexts
    pub ollama : Rewriter.Client contexts F
    pub network : Network contexts
    pub wait : Wait contexts
    pub unmarshal : Unmarshal
    -- os.Getpid
    pub pid : Text
    -- the method Check of a probe with the given settings
    pub check : RabbitMqConfig → Ctx → W → Option Error × W

  pub record Parts : Type 0 where
    pub store : Store.Client contexts
    pub consumer : Consumer contexts
    pub probe : Probe contexts

  -- The rewriter: there is one only if it is enabled.
  unfoldable pub rewriter_of : Platform → Config F → Option (Ctx → Text → W → Result Text × W)
  unfolding Rewriter.new
  rewriter_of p cfg =
      if cfg.ollama.enabled
      then some (Rewriter.rewrite contexts F (Rewriter.new contexts F p.ollama cfg.ollama))
      else none

  unfoldable pub assemble : Platform → Config F → Store.Client contexts → Parts
  unfolding rewriter_of consumer new_publisher new_probe
  assemble p cfg store =
      let publisher =
        new_publisher contexts p.http cfg.goto_social_instance cfg.goto_social_user
          cfg.goto_social_token cfg.goto_social_audience cfg.goto_social_recipient in
      record {
        store = store;
        consumer =
            consumer contexts p.network p.wait p.unmarshal p.pid cfg.rabbit_mq
              (Store.read_summary contexts p.library.table store) (rewriter_of p cfg)
              (λ ctx text. unseen (publish contexts publisher ctx text));
        probe =
            new_probe contexts cfg.rabbit_mq (p.check cfg.rabbit_mq)
              (sleep_context contexts p.wait);
      }

  -- What follows Run of the consumer.
  unfoldable pub after_run : Ran → M W Exit
  after_run none = pure running
  after_run (some (some e)) = pure (returned (some (wrapped "run consumer: %w" [] e)))
  after_run (some none) = do log info "shutting down"; pure (returned none)

  unfoldable pub serve : ℕ → ℕ → Parts → Ctx → M W Exit
  unfolding Supervisor.run after_run
  serve n fuel parts ctx = do
    log info "rabbitmq connectivity probe started"
    note probe_started
    note server_started
    ran ← Supervisor.run contexts n fuel parts.consumer ctx
    after_run ran

  -- What follows the construction of the store.
  unfoldable pub after_store :
      ℕ → ℕ → Platform → Config F → Ctx → Result (Store.Client contexts) → M W Exit
  unfolding serve assemble
  after_store n fuel p cfg ctx (err e) =
      pure (returned (some (wrapped "create summary store: %w" [] e)))
  after_store n fuel p cfg ctx (ok store) = serve n fuel (assemble p cfg store) ctx

  -- The deferred calls; Close of the store has nothing to do.
  unfoldable pub deferred : Platform → Ctx → Exit → M W Exit
  deferred p ctx running = pure running
  deferred p ctx exit = do take (λ w. (tt {0}, p.stop ctx w)); pure exit

  -- What follows Load.
  unfoldable pub after_load : ℕ → ℕ → Platform → Loaded F → M W Exit
  unfolding after_store new_store deferred
  after_load n fuel p (invalid_configuration es) = pure (load_failed es)
  after_load n fuel p (loaded cfg) = do
    ctx ← take p.notify_context
    log info "configuration loaded"
    exit ← after_store n fuel p cfg ctx (new_store contexts p.aws (some cfg.s3))
    deferred p ctx exit

  unfoldable pub run : ℕ → ℕ → Platform → M W Exit
  unfolding after_load load
  run n fuel p = do log info "starting stocker-informer"; after_load n fuel p (load p.library)

  unfoldable pub log_fatal : Exit → M W (Unit {0})
  log_fatal (load_failed es) = log error "fatal error"
  log_fatal (returned (some e)) = log error "fatal error"
  log_fatal exit = pure tt

  -- The exit status of the process.
  unfoldable pub main : ℕ → ℕ → Platform → M W (Option ℕ)
  unfolding run log_fatal
  main n fuel p = do exit ← run n fuel p; log_fatal exit; pure (exit_code exit)
