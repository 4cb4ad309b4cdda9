-- ===== src/Effects/Quiet.antt =====
-- Opened and closed connections and channels, waits, and the events that are none of these.
use stocker_informer.Base.{ℕ, suc, ◌+◌, ◌*◌, ◌≤◌, ◌≡◌, refl, List, [], ◌∷◌, ◌++◌, All, arith}
use stocker_informer.Int.{second}
use stocker_informer.Effects.{
  Event, logged, slept, connection_opened, connection_closed, channel_opened, channel_closed,
}
use stocker_informer.Effects.Laws.{effects}

-- How many times a connection or a channel was opened and closed.
pub record Tally : Type 0 where
  pub connections_opened : ℕ
  pub connections_closed : ℕ
  pub channels_opened : ℕ
  pub channels_closed : ℕ

abbrev tally_event : Event → Tally → Tally
tally_event connection_opened t = record t { connections_opened = suc t.connections_opened }
tally_event connection_closed t = record t { connections_closed = suc t.connections_closed }
tally_event channel_opened t = record t { channels_opened = suc t.channels_opened }
tally_event channel_closed t = record t { channels_closed = suc t.channels_closed }
tally_event e t = t

abbrev pub tally : List Event → Tally
tally [] = record {
  connections_opened = 0;
  connections_closed = 0;
  channels_opened = 0;
  channels_closed = 0;
}
tally (e ∷ es) = tally_event e (tally es)

abbrev pub add_tally : Tally → Tally → Tally
add_tally s t = record {
  connections_opened = s.connections_opened + t.connections_opened;
  connections_closed = s.connections_closed + t.connections_closed;
  channels_opened = s.channels_opened + t.channels_opened;
  channels_closed = s.channels_closed + t.channels_closed;
}

tally_event-add :
    (e : Event) (s t : Tally) → tally_event e (add_tally s t) ≡ add_tally (tally_event e s) t
tally_event-add connection_opened s t = ground arith
tally_event-add connection_closed s t = ground arith
tally_event-add channel_opened s t = ground arith
tally_event-add channel_closed s t = ground arith
tally_event-add e s t = refl

pub tally-append : (xs ys : List Event) → tally (xs ++ ys) ≡ add_tally (tally xs) (tally ys)
tally-append [] ys = ground arith
tally-append (e ∷ xs) ys = rw (tally-append xs ys) (tally_event-add e (tally xs) (tally ys))

-- So many connections and channels are open after the events.
pub record IsOpen (n : ℕ) (es : List Event) : Type 0 where
  pub connections : (tally es).connections_opened ≡ (tally es).connections_closed + n
  pub channels : (tally es).channels_opened ≡ (tally es).channels_closed + n

-- An event that opens, closes and waits for nothing.
abbrev pub IsQuiet : Event → Type 0
IsQuiet connection_opened = ⊥
IsQuiet connection_closed = ⊥
IsQuiet channel_opened = ⊥
IsQuiet channel_closed = ⊥
IsQuiet (slept d) = ⊥
IsQuiet e = Unit

abbrev pub AllQuiet : List Event → Type 0
AllQuiet = All IsQuiet

pub AllQuiet-effects : (es : List Event) → AllQuiet (effects es) → AllQuiet es
AllQuiet-effects [] h = tt
AllQuiet-effects (logged level line ∷ es) h = (tt, AllQuiet-effects es h)
AllQuiet-effects (e ∷ es) h = (h.0, AllQuiet-effects es h.1)

tally_event-quiet : (e : Event) (t : Tally) → IsQuiet e → tally_event e t ≡ t
tally_event-quiet connection_opened t h = absurd h
tally_event-quiet connection_closed t h = absurd h
tally_event-quiet channel_opened t h = absurd h
tally_event-quiet channel_closed t h = absurd h
tally_event-quiet (slept d) t h = absurd h
tally_event-quiet e t h = refl

pub tally-quiet : (es : List Event) → AllQuiet es → tally es ≡ tally []
tally-quiet [] h = refl
tally-quiet (e ∷ es) h = rw (tally-quiet es h.1) (tally_event-quiet e (tally []) h.0)

-- Each wait lasts from one second to thirty.
abbrev pub IsBounded : Event → Type 0
IsBounded (slept d) = (second ≤ d) × (d ≤ 30 * second)
IsBounded e = Unit

pub AllQuiet-IsBounded : (es : List Event) → AllQuiet es → All IsBounded es
AllQuiet-IsBounded [] h = tt
AllQuiet-IsBounded (slept d ∷ es) h = absurd h.0
AllQuiet-IsBounded (e ∷ es) h = (tt, AllQuiet-IsBounded es h.1)
