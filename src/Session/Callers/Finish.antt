-- ===== src/Session/Callers/Finish.antt =====
-- The rest of a caller's stay in the mutex of a session (internal/rabbitmq/session.go).
use mathlib.Core.List.{foldl-append, map-append}
use stocker_informer.Base.{◌≡◌, refl, ◌∙◌, ap, true, false, List, [], ◌∷◌, ◌++◌, append-nil, map}
use stocker_informer.Contexts.{Contexts}
use stocker_informer.Effects.{channel_closed, connection_closed}
use stocker_informer.Session.{join_errors, ack, nack, cancel_consumer, close}
use stocker_informer.Session.Callers.{
  Request, acking, nacking, cancelling, closing, Pc, locked, admitted, flagged, halfway, leaving,
  refusal, critical, History, act, finished, method, serve, serve_all,
}

module _ {W : Type 0} (contexts : Contexts W) where
  abbrev pub requests : History contexts → List Request
  requests h = map (λ q. q.0) h.answered

  -- The rest of a caller's stay in the mutex, uninterrupted.
  abbrev pub finish : History contexts → Pc → History contexts
  finish h (locked r) = serve contexts h r
  finish h (admitted r) = serve contexts h r
  finish h flagged =
      let (ch_err, w) = h.session.ch.close h.world in
      let (conn_err, w') = h.session.conn.close w in
      record {
        session = h.session;
        events = h.events ++ channel_closed ∷ connection_closed ∷ [];
        world = w';
        answered = h.answered ++ (closing, join_errors ch_err conn_err) ∷ [];
      }
  finish h (halfway ch_err) =
      let (conn_err, w) = h.session.conn.close h.world in
      record {
        session = h.session;
        events = h.events ++ connection_closed ∷ [];
        world = w;
        answered = h.answered ++ (closing, join_errors ch_err conn_err) ∷ [];
      }
  finish h (leaving r e) = finished contexts h r e
  finish h p = h

  abbrev pub Stage : History contexts → Pc → Type 0
  Stage h (admitted r) = h.session.closed ≡ false
  Stage h p = Unit

  -- The calls that have returned, one after the other, do what was done.
  abbrev pub IsServed : History contexts → History contexts → Type 0
  IsServed h₀ h = serve_all contexts h₀ (requests h) ≡ h

  -- A caller moves within the mutex.
  record Stays (h : History contexts) (p : Pc) (h' : History contexts) (p' : Pc) : Type 0 where
    inside : critical p' ≡ true
    stage : Stage h' p'
    same : finish h' p' ≡ finish h p

  pub serve-closed :
      (h : History contexts) (r : Request)
      → h.session.closed ≡ true
      → serve contexts h r ≡ finished contexts h r (refusal r)
  unfolding serve method ack nack cancel_consumer close
  serve-closed h (acking tag) e = simp (e, append-nil)
  serve-closed h (nacking tag requeue) e = simp (e, append-nil)
  serve-closed h cancelling e = simp (e, append-nil)
  serve-closed h closing e = simp (e, append-nil)

  pub act-finish :
      (h : History contexts) (r : Request)
      → h.session.closed ≡ false
      → finish (act contexts r h).0 (act contexts r h).1 ≡ serve contexts h r
  unfolding serve method ack nack cancel_consumer close act
  act-finish h (acking tag) e = simp e
  act-finish h (nacking tag requeue) e = simp e
  act-finish h cancelling e = simp e
  act-finish h closing e = simp e

  pub act-critical : (h : History contexts) (r : Request) → critical (act contexts r h).1 ≡ true
  unfolding act
  act-critical h (acking tag) = refl
  act-critical h (nacking tag requeue) = refl
  act-critical h cancelling = refl
  act-critical h closing = refl

  pub act-Stage :
      (h : History contexts) (r : Request) → Stage (act contexts r h).0 (act contexts r h).1
  unfolding act
  act-Stage h (acking tag) = tt
  act-Stage h (nacking tag requeue) = tt
  act-Stage h cancelling = tt
  act-Stage h closing = tt

  pub serve-IsServed :
      (h₀ h : History contexts) (r : Request) → IsServed h₀ h → IsServed h₀ (serve contexts h r)
  unfolding serve_all serve
  serve-IsServed h₀ h r served =
      ap (serve_all contexts h₀) (map-append (λ q. q.0) h.answered _)
      ∙ (foldl-append (serve contexts) h₀ (requests h) (r ∷ [])
          ∙ ap (λ k. serve contexts k r) served)
