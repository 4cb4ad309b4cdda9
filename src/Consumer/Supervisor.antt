-- ===== src/Consumer/Supervisor.antt =====
-- Run of internal/rabbitmq/consumer.go: the loop that connects, consumes and reconnects. It takes
-- fuel for its rounds and for each consume loop; a result `none` says that it was still running.
pub mod Ends
pub mod Laws
pub mod Retry
use stocker_informer.Base.{
  ℕ, zero, suc, ◌+◌, ◌%◌, ◌||◌, Bool, true, false, Option, none, some, ◌==◌, if◌then◌else◌,
}
use stocker_informer.Errors.{Error, Result, ok, err}
use stocker_informer.Contexts.{Contexts}
use stocker_informer.Effects.{debug, info, warn, slept, M, ◌>>=◌, ◌>>◌, pure, log, call}
use stocker_informer.Session
use stocker_informer.Backoff.{backoff_delay}
use stocker_informer.Consumer.{Consumer, cancelled}
use stocker_informer.Consumer.Loop.{Consumed, consume}
use stocker_informer.Consumer.Connect.{Connected, connect}

-- How Run ended: its error, and `none` while it runs.
abbrev pub Ran : Type 0
Ran = Option (Option Error)

module _ {W : Type 0} (contexts : Contexts W) where
  open contexts use {Ctx}

  -- A shutdown: one log line, and the result nil.
  unfoldable pub shut_down : M W Ran
  shut_down = do log info "rabbitmq consumer shutting down"; pure (some none)

  -- A shutdown that releases the session first.
  unfoldable pub release_and_shut_down : Session.Session contexts → M W Ran
  unfolding shut_down
  release_and_shut_down sess = do Session.close contexts sess; shut_down

  unfoldable pub log_connect_failed : ℕ → M W (Unit {0})
  log_connect_failed failures =
      if failures == 1 || failures % 10 == 0
      then log warn "rabbitmq connect failed, backing off"
      else log debug "rabbitmq connect failed, backing off"

  unfoldable pub after_sleep : M W Ran → Option Error → M W Ran
  after_sleep rest none = rest
  after_sleep rest (some e) = do
    log info "rabbitmq consumer shutting down during backoff"
    pure (some none)

  -- The wait before the next round; the failures counted so far go into it.
  unfoldable pub back_off : Consumer contexts → Ctx → (ℕ → M W Ran) → ℕ → M W Ran
  unfolding after_sleep
  back_off c ctx next failures = do
    failed ← call (slept (backoff_delay failures)) (c.sleep ctx (backoff_delay failures))
    after_sleep (next failures) failed

  -- What follows consume. `next` is the next round, on a consumer that was connected before.
  unfoldable pub after_consume :
      Consumer contexts → Ctx → Session.Session contexts → (ℕ → M W Ran) → ℕ → Consumed → M W Ran
  unfolding release_and_shut_down back_off
  after_consume c ctx sess next failures none = pure none
  after_consume c ctx sess next failures (some (delivered, e)) = do
    over ← cancelled contexts ctx
    let stop = release_and_shut_down sess
    let reconnect = do
      log warn "rabbitmq consumer connection lost"
      Session.close contexts sess
      back_off c ctx next ((if delivered then 0 else failures) + 1)
    if over then stop else reconnect

  unfoldable pub run_session :
      ℕ → Consumer contexts → Ctx → Session.Session contexts → (ℕ → M W Ran) → ℕ → Bool → M W Ran
  unfolding after_consume
  run_session fuel c ctx sess next failures connected = do
    log info (if connected then "rabbitmq consumer reconnected" else "rabbitmq consumer connected")
    consumed ← consume contexts fuel c ctx sess false
    after_consume c ctx sess next failures consumed

  -- What follows connect. `next` is the next round, given the failures and whether a session was
  -- ever connected.
  unfoldable pub after_connect :
      ℕ → Consumer contexts → Ctx → (Bool → ℕ → M W Ran) → ℕ → Bool → Connected contexts → M W Ran
  unfolding shut_down log_connect_failed back_off release_and_shut_down run_session
  after_connect fuel c ctx next failures connected (err e) = do
    over ← cancelled contexts ctx
    let retry = do log_connect_failed (failures + 1); back_off c ctx (next connected) (failures + 1)
    if over then shut_down else retry
  after_connect fuel c ctx next failures connected (ok sess) = do
    over ← cancelled contexts ctx
    let abandon = release_and_shut_down sess
    let go_on = run_session fuel c ctx sess (next true) failures connected
    if over then abandon else go_on

  -- The loop, with the variables `failures` and `connected`.
  unfoldable pub rounds : ℕ → ℕ → Consumer contexts → Ctx → Bool → ℕ → M W Ran
  unfolding after_connect
  rounds zero fuel c ctx connected failures w = pure none w
  rounds (suc n) fuel c ctx connected failures w =
      (do
        over ← cancelled contexts ctx
        let round = do
          sess ← connect contexts c ctx
          after_connect fuel c ctx (rounds n fuel c ctx) failures connected sess
        if over then shut_down else round)
        w

  unfoldable pub run : ℕ → ℕ → Consumer contexts → Ctx → M W Ran
  unfolding rounds
  run n fuel c ctx = do log info "rabbitmq consumer started"; rounds n fuel c ctx false 0
