-- ===== src/Effects.antt =====
-- What the program does to the outside: each call of a seam and each log line is an event, and a
-- computation returns its value, its events in order, and the world after them.
pub mod Laws
pub mod Tags
pub mod Quiet
pub mod Waits
use Prim.Native.String.{String}
use stocker_informer.Base.{ℕ, Bool, true, false, List, [], ◌∷◌, ◌++◌, Option, Text}
use stocker_informer.Int.{ℤ}

pub data Level : Type 0 where
  debug info warn error : Level

pub data Event : Type 0 where
  -- a log line: its level and its message, without its attributes
  logged : Level → String → Event
  -- channel.Ack and channel.Nack of one delivery tag; the flag of a nack asks for a requeue
  acked : ℕ → Event
  nacked : ℕ → Bool → Event
  -- channel.Cancel of a consumer tag
  consumer_cancelled : Text → Event
  -- Close of a channel and of a connection
  channel_closed connection_closed : Event
  -- the calls that set a session up
  channel_opened exchange_declared queue_declared queue_bound qos_set consuming : Event
  -- ReadSummary, Rewrite and Publish
  summary_read : Text → Text → Event
  rewrite_asked : Text → Event
  published : Text → Event
  -- an HTTP request that was sent, with the status of its response, if there was one
  posted : Option ℕ → Event
  -- a delivery taken from the stream
  received : ℕ → Event
  -- a dial that succeeded
  connection_opened : Event
  -- a wait of so many nanoseconds
  slept : ℕ → Event
  -- the readiness callback
  became_ready : Event
  -- a TCP connection that was dialed, the deadline set on it, and its close
  socket_opened : Event
  deadline_set : ℤ → Event
  socket_closed : Event
  -- the `go` statements of the probe and of the HTTP server
  probe_started server_started : Event

pub record Out (W A : Type 0) : Type 0 where
  pub value : A
  pub events : List Event
  pub world : W

abbrev pub M : Type 0 → Type 0 → Type 0
M W A = W → Out W A

infixl 5 ◌>>=◌ ◌>>◌
abbrev pub ◌>>=◌ : {W A B : Type 0} → M W A → (A → M W B) → M W B
◌>>=◌ m f w =
    let r = m w in
    let s = f r.value r.world in
    record { value = s.value; events = r.events ++ s.events; world = s.world }

abbrev pub ◌>>◌ : {W A B : Type 0} → M W A → M W B → M W B
◌>>◌ m k w =
    let r = m w in
    let s = k r.world in record { value = s.value; events = r.events ++ s.events; world = s.world }

abbrev pub pure : {W A : Type 0} → A → M W A
pure a w = record { value = a; events = []; world = w }

abbrev pub log : {W : Type 0} → Level → String → M W (Unit {0})
log level line w = record { value = tt; events = logged level line ∷ []; world = w }

-- A call of the outside, which shows as one event.
abbrev pub call : {W A : Type 0} → Event → (W → A × W) → M W A
call e f w = let (a, w') = f w in record { value = a; events = e ∷ []; world = w' }

-- A computation of which only the result and the world are seen.
abbrev pub unseen : {W A : Type 0} → M W A → W → A × W
unseen m w = let r = m w in (r.value, r.world)

-- A look at the state of the world.
abbrev pub look : {W A : Type 0} → (W → A) → M W A
look f w = record { value = f w; events = []; world = w }

-- A receive: a step of the outside that is no event by itself.
abbrev pub take : {W A : Type 0} → (W → A × W) → M W A
take f w = let (a, w') = f w in record { value = a; events = []; world = w' }

-- An event of its own.
abbrev pub note : {W : Type 0} → Event → M W (Unit {0})
note e w = record { value = tt; events = e ∷ []; world = w }
