-- ===== src/Consumer/Protocol/Handled.antt =====
-- One delivery in the protocol: handleDelivery of internal/rabbitmq/consumer.go.
use stocker_informer.Base.{ℕ, ◌≡◌, refl, true, false, List, [], ◌∷◌, Text, ==_iff, ◌==◌}
use stocker_informer.Contexts.{Contexts}
use stocker_informer.Effects.{Event, received}
use stocker_informer.Session
use stocker_informer.Session.{Delivery}
use stocker_informer.Consumer.{Consumer, handle_delivery}
use stocker_informer.Consumer.Publication.{Rewriter, Publication, plain, reworked}
use stocker_informer.Consumer.Handling.{
  Pipeline, refused, unpublished, delivered, handle_delivery-Pipeline,
}
use stocker_informer.Consumer.Settled.{IsSettlement, done, requeued}
use stocker_informer.Consumer.Protocol.{
  Stage, arrived, fetched, sent, streaming, handling, Leads, Leads-append, Leads-effects,
}

pub same_tag : (tag : ℕ) → (tag == tag) ≡ true
same_tag tag = (==_iff tag tag).1 refl

module _ {W : Type 0} (contexts : Contexts W) (ctx : contexts.Ctx) (d : Delivery) where
  settlement-Leads :
      (g : Stage) (e : Event)
      → IsSettlement contexts ctx d e
      → Leads (handling d.delivery_tag g) (e ∷ []) streaming
  settlement-Leads g e (done h) = rw h (rw (same_tag d.delivery_tag) refl)
  settlement-Leads g e (requeued w c h) = rw h (rw (same_tag d.delivery_tag) refl)

  Publication-Leads :
      (rewriter : Rewriter contexts) (text : Text) (ps : List Event)
      → Publication contexts rewriter ctx text ps
      → Leads (handling d.delivery_tag fetched) ps (handling d.delivery_tag sent)
  Publication-Leads rewriter text ps (plain n h) = rw h refl
  Publication-Leads rewriter text ps (reworked rewrite s w report r fit h) = rw h refl

  Pipeline-Leads :
      (c : Consumer contexts) (w : W) (es : List Event)
      → Pipeline contexts c ctx d w es
      → Leads (handling d.delivery_tag arrived) es streaming
  Pipeline-Leads c w es (refused h (e, s, p)) =
      Leads-effects _ es _ _ p (settlement-Leads arrived e s)
  Pipeline-Leads c w es (unpublished id h u e s p) =
      Leads-effects _ es _ _ p (settlement-Leads fetched e s)
  Pipeline-Leads c w es (delivered id h content read fit ps publication e s p) =
      Leads-effects _ es _ _ p (
        Leads-append (handling d.delivery_tag fetched) ps (handling d.delivery_tag sent) (e ∷ [])
          streaming (Publication-Leads _ _ ps publication) (settlement-Leads sent e s))

  -- A delivery that arrives on an open session is handled in the protocol's order.
  pub handle_delivery-Leads :
      (c : Consumer contexts) (s : Session.Session contexts) (w : W)
      → s.closed ≡ false
      → Leads streaming
          (received d.delivery_tag ∷ (handle_delivery contexts c ctx s d w).events)
          streaming
  handle_delivery-Leads c s w alive =
      Pipeline-Leads c w _ (handle_delivery-Pipeline contexts ctx s d alive c w)
