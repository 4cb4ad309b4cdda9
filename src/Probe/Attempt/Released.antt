-- ===== src/Probe/Attempt/Released.antt =====
-- What Check of internal/rabbitmq/probe.go returns, and what becomes of its connection.
use stocker_informer.Base.{
  ◌+◌, List, ℕ, suc, ◌≤◌, ◌≡◌, ◌≢◌, ◌⊎◌, inl, inr, refl, Bool, true, false, Option, none, some,
  arith, subst,
}
use stocker_informer.Errors.{Error, Result, ok, err, session_closed}
use stocker_informer.Config.{RabbitMqConfig}
use stocker_informer.Contexts.{Contexts}
use stocker_informer.Effects.{Event}
use stocker_informer.Probe.{ProbeChannel, ProbeConnection, check_topology}
use stocker_informer.Probe.Topology.{IsVerified, Released, check_topology_verifies}
use stocker_informer.Probe.Attempt.{
  closes_of, Caller, awaiting_dial, awaiting_topology, returned, Attempt, dialing, reporting,
  verifying, ended, State, start_check, Step, dial_failed, failure_reported, dial_succeeded,
  topology_checked, context_ended, failure_received, connection_received, dial_aborted,
  result_received, attempt_timed_out, Reachable, at_start, stepped,
}

-- The connection, by where the goroutine stands.
abbrev IsPhase : Attempt → Bool → ℕ → Type 0
IsPhase dialing opened closes = opened ≡ false
IsPhase (reporting e) opened closes = opened ≡ false
IsPhase verifying opened closes = opened ≡ true
IsPhase (ended none) opened closes = 1 ≤ closes
IsPhase (ended (some e)) opened closes = opened ≡ true → 1 ≤ closes

-- A value on the channel `done` is the one that the goroutine ended with.
abbrev Matches : Option (Option Error) → Attempt → Type 0
Matches none attempt = Unit
Matches (some result) attempt = attempt ≡ ended result

-- A caller that returned nil did so on the goroutine's word.
abbrev Vouched : Caller → Attempt → Type 0
Vouched (returned none) attempt = attempt ≡ ended none
Vouched caller attempt = Unit

abbrev IsBusy : Attempt → Type 0
IsBusy attempt = (result : Option Error) → attempt ≢ ended result

Vouched-moves : (c : Caller) (a a' : Attempt) → IsBusy a → Vouched c a → Vouched c a'
Vouched-moves awaiting_dial a a' busy h = tt
Vouched-moves awaiting_topology a a' busy h = tt
Vouched-moves (returned none) a a' busy h = absurd (busy none h)
Vouched-moves (returned (some e)) a a' busy h = tt

Vouched-returned :
    (result : Option Error) (a : Attempt) → a ≡ ended result → Vouched (returned result) a
Vouched-returned none a h = h
Vouched-returned (some e) a h = tt

Matches-idle : (d : Option (Option Error)) (a a' : Attempt) → IsBusy a → Matches d a → Matches d a'
Matches-idle none a a' busy h = tt
Matches-idle (some result) a a' busy h = absurd (busy result h)

IsPhase-closed :
    (result : Option Error) (opened : Bool) (closes : ℕ)
    → IsPhase (ended result) opened (suc closes)
IsPhase-closed none opened closes = omega arith
IsPhase-closed (some e) opened closes = λ _. omega arith

IsPhase-suc :
    (a : Attempt) (opened : Bool) (closes : ℕ)
    → IsPhase a opened closes
    → IsPhase a opened (suc closes)
IsPhase-suc dialing opened closes h = h
IsPhase-suc (reporting e) opened closes h = h
IsPhase-suc verifying opened closes h = h
IsPhase-suc (ended result) opened closes h = IsPhase-closed result opened closes

-- The caller is past its two selects.
abbrev pub HasReturned : Caller → Type 0
HasReturned (returned result) = Unit
HasReturned caller = ⊥

closed_of_phase :
    (result : Option Error) (opened : Bool) (closes : ℕ)
    → IsPhase (ended result) opened closes
    → opened ≡ true
    → 1 ≤ closes
closed_of_phase none opened closes h k = h
closed_of_phase (some e) opened closes h k = h k

closes_of-Released :
    {W : Type 0} (contexts : Contexts W) (ch : Result (ProbeChannel W)) (es : List Event)
    → Released contexts ch es
    → closes_of es ≡ 1
closes_of-Released contexts (err e) es h = rw h refl
closes_of-Released contexts (ok ch) es (middle, h, inl e) = rw (h, e) refl
closes_of-Released contexts (ok ch) es (middle, h, inr e) = rw (h, e) refl

module _ {W : Type 0} (contexts : Contexts W) (cfg : RabbitMqConfig)
    (conn : ProbeConnection W) where
  closes_of-check : (w : W) → closes_of (check_topology contexts cfg conn w).events ≡ 1
  closes_of-check w =
      closes_of-Released contexts (conn.channel w).0 _
        (check_topology_verifies contexts cfg conn w).1

  closes_after : (w : W) (n : ℕ) → closes_of (check_topology contexts cfg conn w).events + n ≡ suc n
  closes_after w n = omega (arith, closes_of-check w)

  -- In some world checkTopology found what it looks for.
  abbrev pub Verified : Type 0
  Verified = (w : W) × IsVerified contexts cfg (conn.channel w).0 (conn.channel w).1

  checked-Verified :
      (w : W) → ended (check_topology contexts cfg conn w).value ≡ ended none → Verified
  checked-Verified w h = (w, (check_topology_verifies contexts cfg conn w).0.0 (cc))

  record Inv (st : State) : Type 0 where
    phase : IsPhase st.attempt st.opened st.closes
    matched : Matches st.done st.attempt
    vouched : Vouched st.caller st.attempt
    checked : st.attempt ≡ ended none → Verified

  -- An invariant of the goroutine's state moves along an equation of it.
  at_phase : (st : State) (a : Attempt) → st.attempt ≡ a → Inv st → IsPhase a st.opened st.closes
  at_phase st a h inv = subst (λ b. IsPhase b st.opened st.closes) h inv.phase

  Step-Inv : {st st' : State} → Step contexts cfg conn st st' → Inv st → Inv st'
  Step-Inv (dial_failed {st} e h) inv = record {
    phase = at_phase st dialing h inv;
    matched = Matches-idle st.done st.attempt _ (λ r x. cc) inv.matched;
    vouched = Vouched-moves st.caller st.attempt _ (λ r x. cc) inv.vouched;
    checked = λ q. cc;
  }
  Step-Inv (failure_reported {st} e h) inv = record {
    phase = λ x. cc (at_phase st (reporting e) h inv, x);
    matched = refl;
    vouched = Vouched-moves st.caller st.attempt _ (λ r x. cc) inv.vouched;
    checked = λ q. cc;
  }
  Step-Inv (dial_succeeded {st} h) inv = record {
    phase = refl;
    matched = Matches-idle st.done st.attempt _ (λ r x. cc) inv.matched;
    vouched = Vouched-moves st.caller st.attempt _ (λ r x. cc) inv.vouched;
    checked = λ q. cc;
  }
  Step-Inv (topology_checked {st} w h) inv = record {
    phase =
        rw (closes_after w st.closes)
          (IsPhase-closed (check_topology contexts cfg conn w).value st.opened st.closes);
    matched = refl;
    vouched = Vouched-moves st.caller st.attempt _ (λ r x. cc) inv.vouched;
    checked = checked-Verified w;
  }
  Step-Inv context_ended inv = record {
    checked = inv.checked;
    phase = inv.phase;
    matched = inv.matched;
    vouched = inv.vouched;
  }
  Step-Inv (failure_received e h k) inv = record {
    phase = inv.phase;
    matched = inv.matched;
    vouched = tt;
    checked = inv.checked;
  }
  Step-Inv (connection_received h k) inv = record {
    phase = inv.phase;
    matched = inv.matched;
    vouched = tt;
    checked = inv.checked;
  }
  Step-Inv (dial_aborted reason h k) inv = record {
    phase = inv.phase;
    matched = inv.matched;
    vouched = tt;
    checked = inv.checked;
  }
  Step-Inv (result_received {st} result h k) inv = record {
    phase = inv.phase;
    matched = tt;
    vouched = Vouched-returned result st.attempt (subst (λ d. Matches d st.attempt) k inv.matched);
    checked = inv.checked;
  }
  Step-Inv (attempt_timed_out {st} reason h k) inv = record {
    phase = IsPhase-suc st.attempt st.opened st.closes inv.phase;
    matched = inv.matched;
    vouched = tt;
    checked = inv.checked;
  }

  Reachable-Inv : {st : State} → Reachable contexts cfg conn st → Inv st
  unfolding start_check
  Reachable-Inv at_start = record { phase = refl; matched = tt; vouched = tt; checked = λ q. cc }
  Reachable-Inv (stepped h s) = Step-Inv s (Reachable-Inv h)

  caller_frees :
      (st : State) (c : Caller)
      → st.caller ≡ c
      → st.expired ≡ true
      → HasReturned c ⊎ ((st' : State) × Step contexts cfg conn st st' × HasReturned st'.caller)
  caller_frees st awaiting_dial h k = inr (_, dial_aborted session_closed h k, tt)
  caller_frees st awaiting_topology h k = inr (_, attempt_timed_out session_closed h k, tt)
  caller_frees st (returned result) h k = inl tt

  -- In whatever order the caller, the goroutine and the end of the context take their steps: if Check
  -- returned nil, then checkTopology opened a channel and found the exchange and the queue on it, and
  -- the connection is closed; once the goroutine has ended, an opened connection is closed; and once
  -- the context has ended, the caller has returned or one step of its own makes it return, whatever
  -- the goroutine is doing.
  pub check-Released :
      {st : State}
      → Reachable contexts cfg conn st
      → (st.caller ≡ returned none → (st.attempt ≡ ended none) × Verified × (1 ≤ st.closes))
        × ((result : Option Error) → st.attempt ≡ ended result → st.opened ≡ true → 1 ≤ st.closes)
        × (st.expired ≡ true
            → HasReturned st.caller
              ⊎ ((st' : State) × Step contexts cfg conn st st' × HasReturned st'.caller))
  check-Released {st} h =
      let inv = Reachable-Inv h in
      (
        λ k.
            let ended_well = subst (λ c. Vouched c st.attempt) k inv.vouched in
            (ended_well, inv.checked ended_well, at_phase st (ended none) ended_well inv),
        λ result k o.
            closed_of_phase result st.opened st.closes (at_phase st (ended result) k inv) o,
        λ k. caller_frees st st.caller refl k,
      )
