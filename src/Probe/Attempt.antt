-- ===== src/Probe/Attempt.antt =====
-- Check of internal/rabbitmq/probe.go: the caller and the goroutine of one attempt. Each step is
-- one of theirs, or the end of the attempt's context; any order of them is a run.
pub mod Released
use stocker_informer.Base.{
  List, ◌∷◌, ◌+◌, ℕ, suc, ◌*◌, ◌≡◌, Bool, true, false, [], ◌∷◌, Option, none, some,
}
use stocker_informer.Config.{RabbitMqConfig}
use stocker_informer.Contexts.{Contexts}
use stocker_informer.Effects.{Event, connection_closed}
use stocker_informer.Probe.{ProbeConnection, check_topology}
use stocker_informer.Int.{second}
use stocker_informer.Errors.{Error, wrapped, num, Result, ok, err}

-- The timeout of an attempt, which newProbe sets.
abbrev pub probe_attempt_timeout : ℕ
probe_attempt_timeout = 5 * second

-- Where the caller stands: at its first select, at its second one, or done.
pub data Caller : Type 0 where
  awaiting_dial : Caller
  awaiting_topology : Caller
  returned : Option Error → Caller

-- Where the goroutine stands. A failed dial is sent on two channels, one after the other; `ended`
-- holds what was sent on `done`.
pub data Attempt : Type 0 where
  dialing : Attempt
  reporting : Error → Attempt
  verifying : Attempt
  ended : Option Error → Attempt

-- The two channels have room for one value. `opened` and `closes` tell of the connection.
pub record State : Type 0 where
  pub caller : Caller
  pub attempt : Attempt
  pub dialed : Option (Result (Unit {0}))
  pub done : Option (Option Error)
  pub expired : Bool
  pub opened : Bool
  pub closes : ℕ

abbrev pub dial_error : Error → Error
dial_error e = wrapped "dial rabbitmq: %w" [] e

unfoldable pub start_check : State
start_check = record {
  caller = awaiting_dial;
  attempt = dialing;
  dialed = none;
  done = none;
  expired = false;
  opened = false;
  closes = 0;
}

-- How often the connection was closed.
abbrev pub closes_of : List Event → ℕ
closes_of [] = 0
closes_of (connection_closed ∷ es) = suc (closes_of es)
closes_of (e ∷ es) = closes_of es

-- `conn` is the connection of the attempt.
module _ {W : Type 0} (contexts : Contexts W) (cfg : RabbitMqConfig)
    (conn : ProbeConnection W) where
  -- `reason` is the error of the attempt's context.
  pub data Step : State → State → Type 0 where
    -- the goroutine
    dial_failed :
        {st : State} (e : Error)
        → st.attempt ≡ dialing
        → Step st (record st { attempt = reporting e; dialed = some (err e) })
    failure_reported :
        {st : State} (e : Error)
        → st.attempt ≡ reporting e
        → Step st
            (record st { attempt = ended (some (dial_error e)); done = some (some (dial_error e)) })
    dial_succeeded :
        {st : State}
        → st.attempt ≡ dialing
        → Step st (record st { attempt = verifying; dialed = some (ok tt); opened = true })
    -- checkTopology, in the world that the goroutine finds
    topology_checked :
        {st : State} (w : W)
        → st.attempt ≡ verifying
        → Step st (record st {
          attempt = ended (check_topology contexts cfg conn w).value;
          done = some (check_topology contexts cfg conn w).value;
          closes = closes_of (check_topology contexts cfg conn w).events + st.closes;
        })
    -- the context
    context_ended : {st : State} → Step st (record st { expired = true })
    -- the caller
    failure_received :
        {st : State} (e : Error)
        → st.caller ≡ awaiting_dial
        → st.dialed ≡ some (err e)
        → Step st (record st { caller = returned (some (dial_error e)); dialed = none })
    connection_received :
        {st : State}
        → st.caller ≡ awaiting_dial
        → st.dialed ≡ some (ok tt)
        → Step st (record st { caller = awaiting_topology; dialed = none })
    dial_aborted :
        {st : State} (reason : Error)
        → st.caller ≡ awaiting_dial
        → st.expired ≡ true
        → Step st (record st {
          caller = returned (
              some (
                wrapped "rabbitmq probe attempt aborted after %v: %w"
                  (num probe_attempt_timeout ∷ [])
                  reason));
        })
    result_received :
        {st : State} (result : Option Error)
        → st.caller ≡ awaiting_topology
        → st.done ≡ some result
        → Step st (record st { caller = returned result; done = none })
    attempt_timed_out :
        {st : State} (reason : Error)
        → st.caller ≡ awaiting_topology
        → st.expired ≡ true
        → Step st (record st {
          caller = returned (
              some (
                wrapped "rabbitmq probe attempt timed out after %v: %w"
                  (num probe_attempt_timeout ∷ [])
                  reason));
          closes = suc st.closes;
        })

  pub data Reachable : State → Type 0 where
    at_start : Reachable start_check
    stepped : {st st' : State} → Reachable st → Step st st' → Reachable st'
