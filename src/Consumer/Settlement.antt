-- ===== src/Consumer/Settlement.antt =====
-- When a delivery is acknowledged: internal/rabbitmq/consumer.go.
use stocker_informer.Base.{◌≡◌, refl, sym, ◌∙◌, ap, false, List, [], ◌∷◌, Text}
use stocker_informer.Errors.{is_some}
use stocker_informer.Contexts.{Contexts}
use stocker_informer.Effects.{Event, logged, acked, nacked}
use stocker_informer.Effects.Tags.{arrivals, settled_tags, arrivals-append, arrivals-effects}
use stocker_informer.Effects.Laws.{effects, settlements, settlements-append}
use stocker_informer.Session
use stocker_informer.Session.{Delivery}
use stocker_informer.Consumer.{Consumer, handle_delivery}
use stocker_informer.Consumer.Publication.{Rewriter, Publication, plain, reworked}
use stocker_informer.Consumer.Handling.{
  Pipeline, refused, unpublished, delivered, handle_delivery-Pipeline,
}
use stocker_informer.Consumer.Settled.{IsSettlement, done, requeued}

settlements-effects : (es : List Event) → settlements (effects es) ≡ settlements es
settlements-effects [] = refl
settlements-effects (logged level line ∷ es) = settlements-effects es
settlements-effects (acked tag ∷ es) = ap (λ xs. acked tag ∷ xs) (settlements-effects es)
settlements-effects (nacked tag requeue ∷ es) =
    ap (λ xs. nacked tag requeue ∷ xs) (settlements-effects es)
settlements-effects (e ∷ es) = settlements-effects es

module _ {W : Type 0} (contexts : Contexts W) (ctx : contexts.Ctx) (d : Delivery) where
  settlements_of_IsSettlement :
      (e : Event) → IsSettlement contexts ctx d e → settlements (e ∷ []) ≡ e ∷ []
  settlements_of_IsSettlement e (done h) = rw h
  settlements_of_IsSettlement e (requeued w c h) = rw h

  settlements_of_Publication :
      (rewriter : Rewriter contexts) (text : Text) (es : List Event)
      → Publication contexts rewriter ctx text es
      → settlements es ≡ []
  settlements_of_Publication rewriter text es (plain n h) = rw h
  settlements_of_Publication rewriter text es (reworked rewrite s w report r fit h) = rw h

  pub IsSettlement-tags :
      (e : Event) → IsSettlement contexts ctx d e → settled_tags (e ∷ []) ≡ d.delivery_tag ∷ []
  IsSettlement-tags e (done h) = rw h
  IsSettlement-tags e (requeued w c h) = rw h

  IsSettlement-arrivals : (e : Event) → IsSettlement contexts ctx d e → arrivals (e ∷ []) ≡ []
  IsSettlement-arrivals e (done h) = rw h
  IsSettlement-arrivals e (requeued w c h) = rw h

  Publication-arrivals :
      (rewriter : Rewriter contexts) (text : Text) (es : List Event)
      → Publication contexts rewriter ctx text es
      → arrivals es ≡ []
  Publication-arrivals rewriter text es (plain n h) = rw h
  Publication-arrivals rewriter text es (reworked rewrite s w report r fit h) = rw h

  pub Pipeline-arrivals :
      (c : Consumer contexts) (w : W) (es : List Event)
      → Pipeline contexts c ctx d w es
      → arrivals es ≡ []
  Pipeline-arrivals c w es (refused h (e, s, p)) =
      sym (arrivals-effects es) ∙ (ap arrivals p ∙ IsSettlement-arrivals e s)
  Pipeline-arrivals c w es (unpublished id h u e s p) =
      sym (arrivals-effects es) ∙ (ap arrivals p ∙ IsSettlement-arrivals e s)
  Pipeline-arrivals c w es (delivered id h content r fit ps publication e s p) =
      sym (arrivals-effects es)
      ∙ (ap arrivals p
          ∙ (arrivals-append ps (e ∷ [])
              ∙ rw (Publication-arrivals c.rewriter _ ps publication) (IsSettlement-arrivals e s)))

  -- A pipeline settles the delivery once.
  pub Pipeline-settlements :
      (c : Consumer contexts) (w : W) (es : List Event)
      → Pipeline contexts c ctx d w es
      → (e : Event) × IsSettlement contexts ctx d e × (settlements es ≡ e ∷ [])
  Pipeline-settlements c w es (refused h (e, s, p)) =
      (e, s, sym (settlements-effects es) ∙ (ap settlements p ∙ settlements_of_IsSettlement e s))
  Pipeline-settlements c w es (unpublished id h u e s p) =
      (e, s, sym (settlements-effects es) ∙ (ap settlements p ∙ settlements_of_IsSettlement e s))
  Pipeline-settlements c w es (delivered id h content r fit ps publication e s p) = (
    e,
    s,
    sym (settlements-effects es)
        ∙ (ap settlements p
            ∙ (settlements-append ps (e ∷ [])
                ∙ rw (settlements_of_Publication c.rewriter _ ps publication)
                    (settlements_of_IsSettlement e s))),
  )

  -- While the context never ends and the session is open, every outcome is acknowledged, exactly
  -- once: a body that does not decode, a summary that is missing or unreadable or blank, and a
  -- failed publication too.
  pub handle_delivery_acks :
      (c : Consumer contexts) (sess : Session.Session contexts) (w : W)
      → sess.closed ≡ false
      → ((w' : W) → is_some (contexts.ctx_err ctx w') ≡ false)
      → settlements (handle_delivery contexts c ctx sess d w).events ≡ acked d.delivery_tag ∷ []
  handle_delivery_acks c sess w alive running =
      let (e, s, p) =
        Pipeline-settlements c w _ (handle_delivery-Pipeline contexts ctx sess d alive c w) in
      p ∙ ap (λ x. x ∷ []) (must_ack e s)
    where
      must_ack : (e : Event) → IsSettlement contexts ctx d e → e ≡ acked d.delivery_tag
      must_ack e (done h) = h
      must_ack e (requeued w' h same) = cc (running w')
