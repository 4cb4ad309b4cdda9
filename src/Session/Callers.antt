-- ===== src/Session/Callers.antt =====
-- internal/rabbitmq/session.go: goroutines that call the methods of one session at the same time.
-- A method takes the mutex, tests the flag, uses the channel and releases the mutex, each in a step
-- of its own, and the steps of different callers come in any order.
pub mod Finish
pub mod Invariant
pub mod Refines
pub mod Turns
pub mod Progress
pub mod Closing
use mathlib.Core.List.{foldl}
use stocker_informer.Base.{
  ℕ, Bool, true, false, List, [], ◌∷◌, ◌++◌, Option, none, some, Text, ◌==◌, if◌then◌else◌,
}
use stocker_informer.Errors.{Error, session_closed}
use stocker_informer.Contexts.{Contexts}
use stocker_informer.Effects.{
  Event, acked, nacked, consumer_cancelled, channel_closed, connection_closed, M, ◌>>=◌, ◌>>◌, pure,
}
use stocker_informer.Session.{Session, join_errors, ack, nack, cancel_consumer, close}

-- A call of one of the four methods.
pub data Request : Type 0 where
  acking : ℕ → Request
  nacking : ℕ → Bool → Request
  cancelling : Request
  closing : Request

-- Where a caller stands: before its next call, before `mu.Lock`, before the test of the flag,
-- after a test that found the session open, between the flag and `ch.Close`, between `ch.Close`
-- and `conn.Close`, and before the deferred `mu.Unlock`, with what the call will return.
pub data Pc : Type 0 where
  idle : Pc
  waiting : Request → Pc
  locked : Request → Pc
  admitted : Request → Pc
  flagged : Pc
  halfway : Option Error → Pc
  leaving : Request → Option Error → Pc

-- What a method returns for a closed session.
abbrev pub refusal : Request → Option Error
refusal (acking tag) = some session_closed
refusal (nacking tag requeue) = some session_closed
refusal cancelling = none
refusal closing = none

-- The statements between `mu.Lock` and the end of `mu.Unlock`.
abbrev pub critical : Pc → Bool
critical idle = false
critical (waiting r) = false
critical p = true

-- The callers' places after caller `i` has gone to another one.
abbrev pub moves_to : (ℕ → Pc) → ℕ → Pc → ℕ → Pc
moves_to pc i p j = if i == j then p else pc j

abbrev pub is_free : Option ℕ → Bool
is_free none = true
is_free (some i) = false

module _ {W : Type 0} (contexts : Contexts W) where
  -- A session, the world, what was done to it so far, and the calls that have returned, in the
  -- order in which they did, each with what it returned.
  pub record History : Type 0 where
    pub session : Session contexts
    pub events : List Event
    pub world : W
    pub answered : List (Request × Option Error)

  pub record System : Type 0 where
    pub history : History
    -- the caller that has the mutex
    pub holder : Option ℕ
    pub pc : ℕ → Pc

  pub record Moved : Type 0 where
    pub history : History
    pub holder : Option ℕ
    pub pc : Pc

  abbrev pub moved : History → Option ℕ → Pc → Moved
  moved h holder p = record { history = h; holder = holder; pc = p }

  -- A call of the outside that shows as one event.
  abbrev pub acted : History → Event → W → History
  acted h e w = record h { events = h.events ++ e ∷ []; world = w }

  -- The first statement after the test, for each method.
  unfoldable pub act : Request → History → History × Pc
  act (acking tag) h =
      let (e, w) = h.session.ch.ack tag false h.world in
      (acted h (acked tag) w, leaving (acking tag) e)
  act (nacking tag requeue) h =
      let (e, w) = h.session.ch.nack tag false requeue h.world in
      (acted h (nacked tag requeue) w, leaving (nacking tag requeue) e)
  act cancelling h =
      let (e, w) = h.session.ch.cancel h.session.tag false h.world in
      (acted h (consumer_cancelled h.session.tag) w, leaving cancelling none)
  act closing h = let s = h.session in (record h { session = record s { closed = true } }, flagged)

  abbrev pub finished : History → Request → Option Error → History
  finished h r e = record h { answered = h.answered ++ (r, e) ∷ [] }

  -- One step of caller `i`; `r` is what it calls if it is between two calls. A caller that finds
  -- the mutex taken stays where it is.
  unfoldable pub advance : Request → ℕ → History → Option ℕ → Pc → Moved
  advance r i h holder idle = moved h holder (waiting r)
  advance _ i h holder (waiting r) =
      if is_free holder then moved h (some i) (locked r) else moved h holder (waiting r)
  advance _ i h holder (locked r) =
      if h.session.closed
      then moved h holder (leaving r (refusal r))
      else moved h holder (admitted r)
  advance _ i h holder (admitted r) = let (h', p) = act r h in moved h' holder p
  advance _ i h holder flagged =
      let (e, w) = h.session.ch.close h.world in moved (acted h channel_closed w) holder (halfway e)
  advance _ i h holder (halfway ch_err) =
      let (e, w) = h.session.conn.close h.world in
      moved (acted h connection_closed w) holder (leaving closing (join_errors ch_err e))
  advance _ i h holder (leaving r e) = moved (finished h r e) none idle

  -- A turn names a caller, and the call it makes if it is between two calls.
  unfoldable pub turn : System → ℕ × Request → System
  turn s (i, r) =
      let m = advance r i s.history s.holder (s.pc i) in
      record { history = m.history; holder = m.holder; pc = moves_to s.pc i m.pc }

  -- The callers' steps in the order that the turns give.
  unfoldable pub interleave : System → List (ℕ × Request) → System
  interleave = foldl turn

  abbrev pub open_history : Session contexts → W → History
  open_history s w = record { session = s; events = []; world = w; answered = [] }

  abbrev pub begin : Session contexts → W → System
  begin s w = record { history = open_history s w; holder = none; pc = λ i. idle }

  -- A call that nothing interrupts: the method of the session, as one step.
  unfoldable pub method : Session contexts → Request → M W (Session contexts × Option Error)
  method s (acking tag) = do e ← ack contexts s tag; pure (s, e)
  method s (nacking tag requeue) = do e ← nack contexts s tag requeue; pure (s, e)
  method s cancelling = do cancel_consumer contexts s; pure (s, none)
  method s closing = close contexts s

  unfoldable pub serve : History → Request → History
  serve h r =
      let o = method h.session r h.world in
      record {
        session = o.value.0;
        events = h.events ++ o.events;
        world = o.world;
        answered = h.answered ++ (r, o.value.1) ∷ [];
      }

  -- One call after the other.
  unfoldable pub serve_all : History → List Request → History
  serve_all = foldl serve
