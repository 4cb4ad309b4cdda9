-- ===== src/Server/Source.antt =====
-- Where the text comes from that the consumer built by cmd/server/main.go publishes.
use mathlib.Core.Option.{some-injective}
use stocker_informer.Base.{
  ◌≡◌, ◌⊎◌, refl, sym, ◌∙◌, ap, subst, inl, inr, true, false, Bool-cases, List, [], ◌∷◌, ◌++◌, All,
  All-map, some, Text, is_empty, arith, append-nil,
}
use stocker_informer.Int.{pos, ltb_ℤ}
use stocker_informer.Errors.{Result, ok, err}
use stocker_informer.Contexts.{Contexts}
use stocker_informer.Text.{CaseTable, trim_space}
use stocker_informer.Effects.{Event, logged, published}
use stocker_informer.Effects.Laws.{effects}
use stocker_informer.Session
use stocker_informer.Session.{Delivery}
use stocker_informer.Config.Load.{Config}
use stocker_informer.Store
use stocker_informer.Store.{
  build_key, get, is_not_found, wrap_read_error, read_result, read_at, read_key, read_summary,
}
use stocker_informer.Store.Read.{answer, started}
use stocker_informer.Rewriter
use stocker_informer.Consumer.{StockIdentity, decode_stock, choose_text, handle_delivery}
use stocker_informer.Consumer.Publication.{Publication, plain, reworked}
use stocker_informer.Consumer.Handling.{
  Pipeline, refused, unpublished, delivered, handle_delivery-Pipeline,
}
use stocker_informer.Consumer.Settled.{IsSettlement, done, requeued}
use stocker_informer.Build
use stocker_informer.Server.{Platform, rewriter_of, assemble}

-- The texts that were published.
abbrev pub publications : List Event → List Text
publications [] = []
publications (published text ∷ es) = text ∷ publications es
publications (e ∷ es) = publications es

publications-effects : (es : List Event) → publications (effects es) ≡ publications es
publications-effects [] = refl
publications-effects (logged level line ∷ es) = publications-effects es
publications-effects (published text ∷ es) = ap (λ ts. text ∷ ts) (publications-effects es)
publications-effects (e ∷ es) = publications-effects es

publications-append :
    (xs ys : List Event) → publications (xs ++ ys) ≡ publications xs ++ publications ys
publications-append [] ys = refl
publications-append (published text ∷ xs) ys = ap (λ ts. text ∷ ts) (publications-append xs ys)
publications-append (e ∷ xs) ys = publications-append xs ys

choose_text-cases :
    (text : Text) (r : Result Text)
    → ((choose_text text r).0 ≡ text)
      ⊎ ((report : Text) × (r ≡ ok report) × ((choose_text text r).0 ≡ trim_space report))
unfolding choose_text
choose_text-cases text (err e) = inl refl
choose_text-cases text (ok report) = elim (Bool-cases (is_empty (trim_space report))) [
  | inl e ↦ inl (rw e refl)
  | inr e ↦ inr (report, refl, rw e refl)
]

module _ {W : Type 0} (contexts : Contexts W) where
  open contexts use {Ctx, ctx_err}

  read_result-ok :
      (ctx : Ctx) (key : Text) (r : Result Text) (w : W) (content : Text)
      → read_result contexts ctx key r w ≡ ok content
      → r ≡ ok content
  unfolding read_result
  read_result-ok ctx key (ok content') w content h = h
  read_result-ok ctx key (err e) w content h = elim (Bool-cases (is_not_found e)) [
    | inl p ↦ ground (arith, p, h)
    | inr p ↦ ground (arith, p, h)
  ]

  read_key-ok :
      (c : Store.Client contexts) (ctx : Ctx) (key : Text) (w : W) (content : Text)
      → (read_key contexts c ctx key w).0 ≡ ok content
      → answer contexts c ctx key w ≡ ok content
  unfolding read_key read_at
  read_key-ok c ctx key w content = elim (Bool-cases (ltb_ℤ (pos 0) c.timeout)) [
    | inl p ↦ rw (p, answer, started) (λ h. read_result-ok _ key _ _ content h)
    | inr p ↦ rw (p, answer, started) (λ h. read_result-ok ctx key _ _ content h)
  ]

  -- The summary that was read is the content of the object with this key.
  pub record IsStored (table : CaseTable) (c : Store.Client contexts) (ctx : Ctx)
      (id : StockIdentity) (w : W) (content : Text) : Type 0 where
    pub key : Text
    pub is_key : build_key table c.prefix id.exchange id.symbol ≡ ok key
    pub stored : answer contexts c ctx key w ≡ ok content

  read_summary-IsStored :
      (table : CaseTable) (c : Store.Client contexts) (ctx : Ctx) (id : StockIdentity) (w : W)
      (content : Text) (r : Result Text)
      → build_key table c.prefix id.exchange id.symbol ≡ r
      → (read_summary contexts table c ctx id.exchange id.symbol w).0 ≡ ok content
      → IsStored table c ctx id w content
  unfolding read_summary
  read_summary-IsStored table c ctx id w content (err e) p = rw (p, read_summary) (λ h. cc)
  read_summary-IsStored table c ctx id w content (ok key) p =
      rw (p, read_summary)
        (λ h. record { key = key; is_key = p; stored = read_key-ok c ctx key w content h })

  module _ (F : Type 0) (p : Platform contexts F) (cfg : Config F)
      (store : Store.Client contexts) where
    -- A text that is published for the content of an object.
    pub data IsVersion (ctx : Ctx) (content : Text) (t : Text) : Type 0 where
      unchanged : t ≡ trim_space content → IsVersion ctx content t
      rewritten :
          cfg.ollama.enabled ≡ true
          → (w : W) (report : Text)
          → (Rewriter.rewrite contexts F
              (Rewriter.new contexts F p.ollama cfg.ollama)
              ctx
              (trim_space content)
              w).0
            ≡ ok report
          → t ≡ trim_space report
          → IsVersion ctx content t

    -- Where a text comes from that is published for a delivery.
    pub record IsSource (ctx : Ctx) (d : Delivery) (w : W) (t : Text) : Type 0 where
      pub id : StockIdentity
      pub decoded : decode_stock p.unmarshal d.body ≡ ok id
      pub content : Text
      pub stored : IsStored p.library.table store ctx id w content
      pub version : IsVersion ctx content t

    rewriter_of-some :
        (rewrite : Ctx → Text → W → Result Text × W)
        → rewriter_of contexts F p cfg ≡ some rewrite
        → (cfg.ollama.enabled ≡ true)
          × (rewrite ≡ Rewriter.rewrite contexts F (Rewriter.new contexts F p.ollama cfg.ollama))
    unfolding rewriter_of
    rewriter_of-some rewrite = elim (Bool-cases cfg.ollama.enabled) [
      | inl e ↦ rw e (λ h. (refl, sym (some-injective _ _ h)))
      | inr e ↦ rw e (λ h. cc)
    ]

    Publication-IsVersion :
        (ctx : Ctx) (content : Text) (ps : List Event)
        → Publication contexts (rewriter_of contexts F p cfg) ctx (trim_space content) ps
        → All (IsVersion ctx content) (publications ps)
    Publication-IsVersion ctx content ps (plain none_there q) = rw q (unchanged refl, tt)
    Publication-IsVersion ctx content ps (reworked rewrite given w r same fit q) =
        let (enabled, which) = rewriter_of-some rewrite given in
        rw q (elim (choose_text-cases (trim_space content) r) [
          | inl e ↦ (unchanged e, tt)
          | inr (report, e, chosen) ↦ (
            rewritten enabled w report
                (subst (λ f. (f ctx (trim_space content) w).0 ≡ ok report) which (same ∙ e)) chosen,
            tt,
          )
        ])

    -- One delivery, of which the effects are known.
    module _ (ctx : Ctx) (d : Delivery) (w : W) (es : List Event) where
      published_in :
          (xs : List Event)
          → effects es ≡ xs
          → All (IsSource ctx d w) (publications xs)
          → All (IsSource ctx d w) (publications es)
      published_in xs q h =
          subst (All (IsSource ctx d w)) (sym (ap publications q) ∙ publications-effects es) h

      settlement-publications :
          (e : Event) → IsSettlement contexts ctx d e → publications (e ∷ []) ≡ []
      settlement-publications e (done q) = rw q refl
      settlement-publications e (requeued v h q) = rw q refl

      Pipeline-IsSource :
          Pipeline contexts (assemble contexts F p cfg store).consumer ctx d w es
          → All (IsSource ctx d w) (publications es)
      unfolding assemble Build.consumer Build.new_consumer
      Pipeline-IsSource (refused why (e, s, q)) =
          published_in (e ∷ []) q (rw (settlement-publications e s) tt)
      Pipeline-IsSource (unpublished id h unusable e s q) =
          published_in _ q (rw (settlement-publications e s) tt)
      Pipeline-IsSource (delivered id h content read fit ps publication e s q) = published_in _ q (
          rw (publications-append ps (e ∷ []), settlement-publications e s, append-nil)
            (All-map (IsVersion ctx content) (IsSource ctx d w)
              (λ t v. record {
                id = id;
                decoded = h;
                content = content;
                stored = read_summary-IsStored p.library.table store ctx id w content _ refl read;
                version = v;
              })
              (publications ps) (Publication-IsVersion ctx content ps publication)))

    -- Whatever the consumer that the program builds publishes while it handles a delivery on an
    -- open session is the trimmed content of one object of the summary store: the one whose key
    -- BuildKey gives for the exchange and the symbol that the delivery's body names. Only if the
    -- rewriter is enabled can it be something else, and then it is what the rewriter returned for
    -- that text, trimmed.
    pub handle_delivery-IsSource :
        (ctx : Ctx) (sess : Session.Session contexts) (d : Delivery)
        → sess.closed ≡ false
        → (w : W)
        → All (IsSource ctx d w) (
            publications
              (handle_delivery contexts
                (assemble contexts F p cfg store).consumer
                ctx
                sess
                d
                w).events)
    handle_delivery-IsSource ctx sess d opened w =
        Pipeline-IsSource ctx d w _ (handle_delivery-Pipeline contexts ctx sess d opened _ w)
