-- ===== src/Session/Callers/Closing.antt =====
-- What callers that interleave on one session do to its channel and its connection
-- (internal/rabbitmq/session.go).
use stocker_informer.Base.{
  ℕ, ◌≡◌, refl, sym, subst, ap, ◌∙◌, Bool, true, false, Bool-cases, List, [], ◌∷◌, ◌++◌, append-nil,
  All, All-append, none, inl, inr,
}
use stocker_informer.Contexts.{Contexts}
use stocker_informer.Effects.{
  Event, acked, nacked, consumer_cancelled, channel_closed, connection_closed,
}
use stocker_informer.Session.{Session, ack, nack, cancel_consumer, close}
use stocker_informer.Session.Callers.{
  Request, acking, nacking, cancelling, closing, History, interleave, open_history, begin, method,
  serve, serve_all,
}
use stocker_informer.Session.Callers.Finish.{requests, serve-closed}
use stocker_informer.Session.Callers.Refines.{interleave-IsServed}

-- A call of an open channel.
abbrev pub IsUse : Event → Type 0
IsUse (acked tag) = Unit
IsUse (nacked tag requeue) = Unit
IsUse (consumer_cancelled tag) = Unit
IsUse e = ⊥

abbrev pub closes : Bool → List Event
closes true = channel_closed ∷ connection_closed ∷ []
closes false = []

-- Calls of the open channel, then, of a session that is closed, the two closes.
pub record IsOrderly (closed : Bool) (es : List Event) : Type 0 where
  pub uses : List Event
  pub open_uses : All IsUse uses
  pub shape : es ≡ uses ++ closes closed

used : (e : Event) (es : List Event) → IsUse e → IsOrderly false es → IsOrderly false (es ++ e ∷ [])
used e es u o = record {
  uses = o.uses ++ e ∷ [];
  open_uses = All-append IsUse o.uses (e ∷ []) o.open_uses (u, tt);
  shape = ap (λ xs. xs ++ e ∷ []) (o.shape ∙ append-nil o.uses) ∙ sym (append-nil _);
}

closed :
    (es : List Event)
    → IsOrderly false es
    → IsOrderly true (es ++ channel_closed ∷ connection_closed ∷ [])
closed es o = record {
  uses = o.uses;
  open_uses = o.open_uses;
  shape = ap (λ xs. xs ++ closes true) (o.shape ∙ append-nil o.uses);
}

module _ {W : Type 0} (contexts : Contexts W) where
  abbrev Orderly : History contexts → Type 0
  Orderly h = IsOrderly h.session.closed h.events

  serve_open :
      (h : History contexts) (r : Request)
      → h.session.closed ≡ false
      → IsOrderly false h.events
      → Orderly (serve contexts h r)
  unfolding serve method ack nack cancel_consumer close
  serve_open h (acking tag) e o = rw e (used (acked tag) h.events tt o)
  serve_open h (nacking tag requeue) e o = rw e (used (nacked tag requeue) h.events tt o)
  serve_open h cancelling e o = rw e (used (consumer_cancelled h.session.tag) h.events tt o)
  serve_open h closing e o = rw e (closed h.events o)

  serve-Orderly : (h : History contexts) (r : Request) → Orderly h → Orderly (serve contexts h r)
  serve-Orderly h r o = elim (Bool-cases h.session.closed) [
    | inl e ↦ subst Orderly (sym (serve-closed contexts h r e)) o
    | inr e ↦ serve_open h r e (subst (λ b. IsOrderly b h.events) e o)
  ]

  serve_all-Orderly :
      (h : History contexts) (rs : List Request) → Orderly h → Orderly (serve_all contexts h rs)
  unfolding serve_all
  serve_all-Orderly h [] o = o
  serve_all-Orderly h (r ∷ rs) o = serve_all-Orderly (serve contexts h r) rs (serve-Orderly h r o)

  -- From a session that is open, let any number of callers take their steps in any order. Whenever
  -- the mutex is free, all acks, nacks and cancels of the channel came before its close, and the
  -- channel and then the connection were closed once if the session's flag is set, and not at all
  -- if it is not.
  pub interleave-IsOrderly :
      (sess : Session contexts) (w : W) (turns : List (ℕ × Request))
      → sess.closed ≡ false
      → (interleave contexts (begin contexts sess w) turns).holder ≡ none
      → IsOrderly
          (interleave contexts (begin contexts sess w) turns).history.session.closed
          (interleave contexts (begin contexts sess w) turns).history.events
  interleave-IsOrderly sess w turns opened e =
      let start : IsOrderly sess.closed [] = record {
        uses = [];
        open_uses = tt;
        shape = rw opened refl;
      } in
      subst Orderly (interleave-IsServed contexts sess w turns e) (
        serve_all-Orderly (open_history contexts sess w)
          (requests contexts (interleave contexts (begin contexts sess w) turns).history) start)
