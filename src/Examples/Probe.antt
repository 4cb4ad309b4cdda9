-- ===== src/Examples/Probe.antt =====
-- The readiness probe and /health.
use stocker_informer.Base.{
  ◌≤◌, ◌⊎◌, ◌≡◌, ◌↔◌, refl, true, false, List, [], ◌∷◌, Option, none, some, codes, arith,
  if◌then◌else◌,
}
use stocker_informer.Int.{pos}
use stocker_informer.Errors.{Error, opaque_error, ok}
use stocker_informer.Contexts.{Contexts}
use stocker_informer.Effects.Waits.{waits}
use stocker_informer.Backoff.{backoff_initial, backoff_max}
use stocker_informer.Health.{health, ready_after}
use stocker_informer.Probe.{
  Probe, ProbeChannel, ProbeConnection, probe_healthy_every, run, check_topology,
}
use stocker_informer.Probe.Phases.{starting, phases, phase, callbacks, as_number}
use stocker_informer.Probe.Readiness.{run-phases, health_of_run}
use stocker_informer.Probe.Delays.{Fails, retry_delays, waits-run}
use stocker_informer.Probe.Topology.{IsVerified, Released, check_topology_verifies}
use stocker_informer.Probe.Attempt.{
  returned, ended, State, start_check, Step, dial_succeeded, connection_received, topology_checked,
  result_received, Reachable, at_start, stepped,
}
use stocker_informer.Probe.Attempt.Released.{HasReturned, Verified, check-Released}
use stocker_informer.Session.{Delivery}
use stocker_informer.Examples.World.{World, contexts, background, settings, start}

-- A check that fails while deliveries wait in the queue, and takes one.
abbrev flaky_from : List Delivery → World → Option Error × World
flaky_from [] w = (none, w)
flaky_from (d ∷ ds) w = (some (opaque_error 3), record w { queue = ds })

abbrev flaky : (c : Contexts World) → Probe c
flaky c = record {
  cfg = settings;
  check = λ ctx w. flaky_from w.queue w;
  sleep = λ ctx d w. (none, w);
  retry_initial = pos backoff_initial;
  retry_max = pos backoff_max;
  healthy_every = pos probe_healthy_every;
}

abbrev broken : (c : Contexts World) → Probe c
broken c = let base = flaky c in record base { check = λ ctx w. (some (opaque_error 3), w) }

run-phases_example :
    let out = run contexts 5 (flaky contexts) tt true start in
    (phases starting out.events ≡ some (phase out.value.1.ready out.value.1.lost))
    × (callbacks out.events ≡ as_number out.value.1.ready)
run-phases_example = run-phases contexts 5 (flaky contexts) tt start

health_of_run_example :
    let out = run contexts 5 (flaky contexts) tt true start in
    let response = health (codes "dev") (ready_after false out.events) in
    (ready_after false out.events ≡ out.value.1.ready)
    × (response.status ≡ (if out.value.1.ready then 200 else 503))
health_of_run_example = health_of_run contexts 5 (flaky contexts) tt start (codes "dev")

-- Three failed checks, and then readiness.
becomes_ready : (run contexts 5 (flaky contexts) tt true start).value.1.ready ≡ true
unfolding run
becomes_ready = refl

always_failing : Fails background (broken background) tt
always_failing = record { running = λ w. refl; rested = λ d w. refl; failing = λ w. refl }

waits-run_example :
    waits (run background 4 (broken background) tt true start).events
    ≡ retry_delays backoff_initial backoff_max 0 4
waits-run_example =
    waits-run background (broken background) tt always_failing backoff_initial backoff_max refl refl
      4 start (omega arith) (omega arith)

abbrev probe_channel : ProbeChannel World
probe_channel = record {
  exchange_declare_passive = λ name kind a b c d w. (none, w);
  queue_declare_passive = λ name a b c d w. (some (opaque_error 404), w);
  close = λ w. (none, w);
}

abbrev probe_connection : ProbeConnection World
probe_connection = record { channel = λ w. (ok probe_channel, w); close = λ w. (none, w) }

check_topology_verifies_example :
    let out = check_topology contexts settings probe_connection start in
    ((out.value ≡ none) ↔ IsVerified contexts settings (ok probe_channel) start)
    × Released contexts (ok probe_channel) out.events
check_topology_verifies_example = check_topology_verifies contexts settings probe_connection start

-- A connection on which the exchange and the queue are present.
abbrev verified_connection : ProbeConnection World
verified_connection =
    let ch = record probe_channel { queue_declare_passive = λ name a b c d w. (none, w) } in
    record probe_connection { channel = λ w. (ok ch, w) }

-- An attempt that dials, checks the topology and returns nil.
abbrev verified : State
verified = record {
  caller = returned none;
  attempt = ended none;
  dialed = none;
  done = none;
  expired = false;
  opened = true;
  closes = 1;
}

verified-Reachable : Reachable contexts settings verified_connection verified
unfolding start_check check_topology
verified-Reachable =
    stepped
      (stepped (stepped (stepped at_start (dial_succeeded refl)) (connection_received refl refl))
        (topology_checked start refl))
      (result_received none refl refl)

check-Released_example :
    (verified.caller ≡ returned none
      → (verified.attempt ≡ ended none)
        × Verified contexts settings verified_connection
        × (1 ≤ verified.closes))
    × ((result : Option Error)
        → verified.attempt ≡ ended result
        → verified.opened ≡ true
        → 1 ≤ verified.closes)
    × (verified.expired ≡ true
        → HasReturned verified.caller
          ⊎ ((st' : State) × Step contexts settings verified_connection verified st'
              × HasReturned st'.caller))
check-Released_example = check-Released contexts settings verified_connection verified-Reachable
