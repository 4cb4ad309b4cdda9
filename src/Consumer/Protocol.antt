-- ===== src/Consumer/Protocol.antt =====
-- The protocol that Run of internal/rabbitmq/consumer.go keeps with the broker: an automaton of what
-- may happen next, which knows nothing of the code.
pub mod Handled
pub mod Consumed
pub mod Followed
use stocker_informer.Base.{
  ℕ, ◌≡◌, refl, ap, sym, ◌∙◌, Bool, true, false, List, [], ◌∷◌, ◌++◌, Option, none, some, ◌==◌,
  if◌then◌else◌,
}
use stocker_informer.Effects.{
  Event, logged, acked, nacked, consumer_cancelled, channel_closed, connection_closed,
  channel_opened, exchange_declared, queue_declared, queue_bound, qos_set, consuming, summary_read,
  rewrite_asked, published, received, connection_opened, slept,
}
use stocker_informer.Effects.Laws.{effects}

-- How far the set-up of a channel has come.
pub data SetUp : Type 0 where
  bare with_exchange with_queue with_binding limited : SetUp

-- How far the handling of a delivery has come.
pub data Stage : Type 0 where
  arrived fetched reworked sent : Stage

-- How the consumer stands with the broker: without a connection; with a connection; with a channel
-- that is being set up; waiting for a delivery; handling the delivery with a tag; after the cancel,
-- waiting for what was prefetched; and giving the delivery with a tag back.
pub data Link : Type 0 where
  down : Link
  dialed : Link
  opened : SetUp → Link
  streaming : Link
  handling : ℕ → Stage → Link
  draining : Link
  returning : ℕ → Link

abbrev pub when : Bool → Link → Option Link
when true l = some l
when false l = none

-- Without a connection there are the waits and the dial.
abbrev pub from_down : Event → Option Link
from_down connection_opened = some dialed
from_down (slept d) = some down
from_down e = none

abbrev pub from_dialed : Event → Option Link
from_dialed channel_opened = some (opened bare)
from_dialed connection_closed = some down
from_dialed e = none

-- The set-up comes in one order, and can be given up at each point.
abbrev pub from_opened : SetUp → Event → Option Link
from_opened g channel_closed = some dialed
from_opened bare exchange_declared = some (opened with_exchange)
from_opened with_exchange queue_declared = some (opened with_queue)
from_opened with_queue queue_bound = some (opened with_binding)
from_opened with_binding qos_set = some (opened limited)
from_opened limited consuming = some streaming
from_opened g e = none

abbrev pub from_streaming : Event → Option Link
from_streaming (received tag) = some (handling tag arrived)
from_streaming (consumer_cancelled name) = some draining
from_streaming channel_closed = some dialed
from_streaming e = none

-- A delivery is settled under its own tag, and if it is refused then it is requeued.
abbrev pub from_handling : ℕ → Stage → Event → Option Link
from_handling tag g (acked t) = when (t == tag) streaming
from_handling tag g (nacked t true) = when (t == tag) streaming
from_handling tag arrived (summary_read exchange symbol) = some (handling tag fetched)
from_handling tag fetched (rewrite_asked text) = some (handling tag reworked)
from_handling tag fetched (published text) = some (handling tag sent)
from_handling tag reworked (published text) = some (handling tag sent)
from_handling tag g e = none

abbrev pub from_draining : Event → Option Link
from_draining (received tag) = some (returning tag)
from_draining channel_closed = some dialed
from_draining e = none

abbrev pub from_returning : ℕ → Event → Option Link
from_returning tag (nacked t true) = when (t == tag) draining
from_returning tag e = none

abbrev pub next : Link → Event → Option Link
next down e = from_down e
next dialed e = from_dialed e
next (opened g) e = from_opened g e
next streaming e = from_streaming e
next (handling tag g) e = from_handling tag g e
next draining e = from_draining e
next (returning tag) e = from_returning tag e

-- Log lines are free; any other event has to be allowed.
abbrev pub advance : Link → Event → Option Link
advance l (logged level line) = some l
advance l e = next l e

abbrev pub and_then : Option Link → (Link → Option Link) → Option Link
and_then none f = none
and_then (some l) f = f l

-- Where the protocol stands after some events, if they keep it.
abbrev pub follow : List Event → Link → Option Link
follow [] l = some l
follow (e ∷ es) l = and_then (advance l e) (follow es)

-- Some events lead from one state of the protocol to another.
abbrev pub Leads : Link → List Event → Link → Type 0
Leads l es m = follow es l ≡ some m

follow-append :
    (o : Option Link) (xs ys : List Event)
    → and_then o (follow (xs ++ ys)) ≡ and_then (and_then o (follow xs)) (follow ys)
follow-append none xs ys = refl
follow-append (some l) [] ys = refl
follow-append (some l) (e ∷ xs) ys = follow-append (advance l e) xs ys

pub Leads-append :
    (l : Link) (xs : List Event) (m : Link) (ys : List Event) (n : Link)
    → Leads l xs m
    → Leads m ys n
    → Leads l (xs ++ ys) n
Leads-append l xs m ys n h k =
    follow-append (some l) xs ys ∙ (ap (λ o. and_then o (follow ys)) h ∙ k)

follow-effects :
    (es : List Event) (o : Option Link) → and_then o (follow (effects es)) ≡ and_then o (follow es)
follow-effects es none = refl
follow-effects [] (some l) = refl
follow-effects (logged level line ∷ es) (some l) = follow-effects es (some l)
follow-effects (e ∷ es) (some l) = follow-effects es (next l e)

-- What counts are the effects.
pub Leads-effects :
    (l : Link) (es xs : List Event) (m : Link) → effects es ≡ xs → Leads l xs m → Leads l es m
Leads-effects l es xs m h k = sym (follow-effects es (some l)) ∙ (ap (λ ys. follow ys l) h ∙ k)
