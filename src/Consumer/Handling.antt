-- ===== src/Consumer/Handling.antt =====
-- What handleDelivery of internal/rabbitmq/consumer.go does for one delivery.
use stocker_informer.Base.{
  ℕ, ◌≡◌, ◌⊎◌, refl, sym, ◌∙◌, append_assoc, ap, inl, inr, true, false, List, [], ◌∷◌, ◌++◌, Option,
  none, some, Text, Bool-cases,
}
use stocker_informer.Errors.{Error, Result, ok, err, is_some, is_summary_not_found}
use stocker_informer.Contexts.{Contexts}
use stocker_informer.Text.{trim_space}
use stocker_informer.Text.Trim.{trim_space_idem}
use stocker_informer.Effects.{Event, info, nacked, summary_read, published}
use stocker_informer.Effects.Laws.{effects, effects-append, effects-append_logged}
use stocker_informer.Consumer.Publication.{IsPublishable, Publication, rewrite_step-Publication}
use stocker_informer.Session
use stocker_informer.Session.{Delivery}
use stocker_informer.Consumer.{
  Consumer, StockIdentity, decode_stock, settle, rewrite_step, after_publish, publish_step,
  publish_summary, log_read_failed, after_read, after_decode, handle_delivery,
}
use stocker_informer.Consumer.Settled.{IsSettlement, Settles, settle_cancelled, settle-Settles}

module _ {W : Type 0} (contexts : Contexts W) where
  open contexts use {Ctx, ctx_err}

  -- The result of a read that gives nothing to publish.
  abbrev pub IsUnusable : Result Text → Type 0
  IsUnusable (err e) = Unit
  IsUnusable (ok content) = trim_space content ≡ []

  -- The effects of handling a delivery in the world `w`.
  pub data Pipeline (c : Consumer contexts) (ctx : Ctx) (d : Delivery) (w : W) (es : List Event)
      : Type 0 where
    refused :
        (is_some (ctx_err ctx w) ≡ true) ⊎ ((x : Error) × (decode_stock c.unmarshal d.body ≡ err x))
        → Settles contexts ctx d es
        → Pipeline c ctx d w es
    unpublished :
        (id : StockIdentity)
        → decode_stock c.unmarshal d.body ≡ ok id
        → IsUnusable (c.summaries ctx id.exchange id.symbol w).0
        → (e : Event) → IsSettlement contexts ctx d e
        → effects es ≡ summary_read id.exchange id.symbol ∷ e ∷ []
        → Pipeline c ctx d w es
    delivered :
        (id : StockIdentity)
        → decode_stock c.unmarshal d.body ≡ ok id
        → (content : Text) → (c.summaries ctx id.exchange id.symbol w).0 ≡ ok content
        → IsPublishable (trim_space content)
        → (ps : List Event) → Publication contexts c.rewriter ctx (trim_space content) ps
        → (e : Event) → IsSettlement contexts ctx d e
        → effects es ≡ summary_read id.exchange id.symbol ∷ (ps ++ e ∷ [])
        → Pipeline c ctx d w es

  module _ (ctx : Ctx) (sess : Session.Session contexts) (d : Delivery)
      (alive : sess.closed ≡ false) where
    after_publish-Settles :
        (failed : Option Error) (w : W)
        → Settles contexts ctx d (after_publish contexts ctx sess d failed w).events
    unfolding after_publish
    after_publish-Settles (some e) w = settle-Settles contexts ctx sess d alive w
    after_publish-Settles none w =
        let (e, s, p) = settle-Settles contexts ctx sess d alive w in
        (
          e,
          s,
          effects-append_logged (settle contexts ctx sess d w).events info
                "summary published on GoToSocial"
              ∙ p,
        )

    publish_step-effects :
        (c : Consumer contexts) (text : Text) (w : W)
        → (e : Event) × IsSettlement contexts ctx d e
          × (effects (publish_step contexts c ctx sess d text w).events ≡ published text ∷ e ∷ [])
    unfolding publish_step
    publish_step-effects c text w =
        let (failed, w1) = c.publisher ctx text w in
        let (e, s, p) = after_publish-Settles failed w1 in (e, s, ap (λ es. published text ∷ es) p)

    -- What publish_summary does with a text that can be published.
    abbrev Publishes : Consumer contexts → Text → List Event → Type 0
    Publishes c text es =
        (ps : List Event) × Publication contexts c.rewriter ctx text ps
        × (e : Event) × IsSettlement contexts ctx d e
        × (effects es ≡ ps ++ e ∷ [])

    publish_summary-Publishes :
        (c : Consumer contexts) (r : ℕ) (text : Text)
        → IsPublishable (r ∷ text)
        → (w : W)
        → Publishes c (r ∷ text) (publish_summary contexts c ctx sess d (r ∷ text) w).events
    unfolding publish_summary
    publish_summary-Publishes c r text h w =
        let out = rewrite_step contexts c.rewriter ctx (r ∷ text) w in
        let (fit, publication) = rewrite_step-Publication contexts c.rewriter ctx (r ∷ text) w h in
        let (e, s, p) = publish_step-effects c out.value.0 out.world in
        (
          effects out.events ++ published out.value.0 ∷ [],
          publication,
          e,
          s,
          effects-append out.events _ ∙ (rw p (sym (append_assoc (effects out.events) _ _))),
        )

    log_read_failed-effects :
        (e : Error) (w : W) → effects (log_read_failed contexts e w).events ≡ []
    unfolding log_read_failed
    log_read_failed-effects e w = elim (Bool-cases (is_summary_not_found e)) [
      | inl h ↦ rw h
      | inr h ↦ rw h
    ]

    -- What follows the read of a summary: a settlement, or a publication and a settlement.
    data AfterRead (c : Consumer contexts) (summary : Result Text) (es : List Event) : Type 0 where
      settled : IsUnusable summary → Settles contexts ctx d es → AfterRead c summary es
      sent :
          (content : Text)
          → summary ≡ ok content
          → IsPublishable (trim_space content)
          → Publishes c (trim_space content) es
          → AfterRead c summary es

    publish_summary-AfterRead :
        (c : Consumer contexts) (content text : Text) (w : W)
        → trim_space content ≡ text
        → trim_space text ≡ text
        → AfterRead c (ok content) (publish_summary contexts c ctx sess d text w).events
    publish_summary-AfterRead c content [] w same h =
        unfold publish_summary in settled same (settle-Settles contexts ctx sess d alive w)
    publish_summary-AfterRead c content (r ∷ text) w same h =
        let fit : IsPublishable (r ∷ text) = record { filled = refl; trimmed = h } in
        sent content refl (rw same fit) (rw same (publish_summary-Publishes c r text fit w))

    after_read-AfterRead :
        (c : Consumer contexts) (summary : Result Text) (w : W)
        → AfterRead c summary (after_read contexts c ctx sess d summary w).events
    unfolding after_read
    after_read-AfterRead c (err x) w =
        let out = log_read_failed contexts x w in
        let (e, s, p) = settle-Settles contexts ctx sess d alive out.world in
        settled tt (e, s, effects-append out.events _ ∙ rw (log_read_failed-effects x w) p)
    after_read-AfterRead c (ok content) w =
        publish_summary-AfterRead c content (trim_space content) w refl (trim_space_idem content)

    AfterRead-Pipeline :
        (c : Consumer contexts) (id : StockIdentity) (w : W) (es : List Event)
        → decode_stock c.unmarshal d.body ≡ ok id
        → AfterRead c (c.summaries ctx id.exchange id.symbol w).0 es
        → Pipeline c ctx d w (summary_read id.exchange id.symbol ∷ es)
    AfterRead-Pipeline c id w es h (settled unusable (e, s, p)) =
        unpublished id h unusable e s (ap (λ xs. summary_read id.exchange id.symbol ∷ xs) p)
    AfterRead-Pipeline c id w es h (sent content same fit (ps, publication, e, s, p)) =
        delivered id h content same fit ps publication e s
          (ap (λ xs. summary_read id.exchange id.symbol ∷ xs) p)

    after_decode-Pipeline :
        (c : Consumer contexts) (identity : Result StockIdentity) (w : W)
        → decode_stock c.unmarshal d.body ≡ identity
        → Pipeline c ctx d w (after_decode contexts c ctx sess d identity w).events
    unfolding after_decode
    after_decode-Pipeline c (err x) w h =
        refused (inr (x, h)) (settle-Settles contexts ctx sess d alive w)
    after_decode-Pipeline c (ok id) w h =
        let (summary, w1) = c.summaries ctx id.exchange id.symbol w in
        AfterRead-Pipeline c id w _ h (after_read-AfterRead c summary w1)

    -- Handling a delivery on an open session reads at most one summary, for the identity in the
    -- body; publishes at most once, and at that the trimmed summary that it read or, after one
    -- rewrite of it, what `choose_text` makes of the outcome, which is trimmed and not empty; and
    -- then settles the delivery, as its last effect and exactly once: by an ack, or by a requeue
    -- where the context has ended. Nothing is read only if the context had ended or the body is no
    -- stock, and what was read goes unpublished only if the read failed or gave a blank text.
    pub handle_delivery-Pipeline :
        (c : Consumer contexts) (w : W)
        → Pipeline c ctx d w (handle_delivery contexts c ctx sess d w).events
    unfolding handle_delivery
    handle_delivery-Pipeline c w = elim (Bool-cases (is_some (ctx_err ctx w))) [
      | inl h ↦ rw h (refused (inl h) (settle-Settles contexts ctx sess d alive w))
      | inr h ↦ rw h (after_decode-Pipeline c (decode_stock c.unmarshal d.body) w refl)
    ]

    -- On an open session, once the context has ended, the only effect is the requeue: nothing is
    -- read or published.
    pub handle_delivery_cancelled :
        (c : Consumer contexts) (w : W)
        → is_some (ctx_err ctx w) ≡ true
        → effects (handle_delivery contexts c ctx sess d w).events ≡ nacked d.delivery_tag true ∷ []
    unfolding handle_delivery
    handle_delivery_cancelled c w h = rw h (settle_cancelled contexts ctx sess d alive w h)
