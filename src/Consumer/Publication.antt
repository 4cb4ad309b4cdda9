-- ===== src/Consumer/Publication.antt =====
-- What handleDelivery of internal/rabbitmq/consumer.go publishes of a summary.
use stocker_informer.Base.{
  ◌≡◌, refl, ap, inl, inr, false, List, [], ◌∷◌, ◌++◌, Option, none, some, Text, is_empty,
  Bool-cases,
}
use stocker_informer.Errors.{Result, ok, err}
use stocker_informer.Contexts.{Contexts}
use stocker_informer.Text.{trim_space}
use stocker_informer.Text.Trim.{trim_space_idem}
use stocker_informer.Effects.{Event, rewrite_asked, published}
use stocker_informer.Effects.Laws.{effects, effects-append_logs}
use stocker_informer.Consumer.{choose_text, log_rewrite, rewrite_step}

-- A text that is fit to be published: trimmed, and not empty.
pub record IsPublishable (t : Text) : Type 0 where
  pub filled : is_empty t ≡ false
  pub trimmed : trim_space t ≡ t

-- The text that is chosen after a rewrite can be published if the summary can.
pub choose_text-IsPublishable :
    (text : Text) (report : Result Text)
    → IsPublishable text
    → IsPublishable (choose_text text report).0
unfolding choose_text
choose_text-IsPublishable text (err e) h = h
choose_text-IsPublishable text (ok report) h = elim (Bool-cases (is_empty (trim_space report))) [
  | inl e ↦ rw e h
  | inr e ↦ rw e (record { filled = e; trimmed = trim_space_idem report })
]

module _ {W : Type 0} (contexts : Contexts W) where
  open contexts use {Ctx}

  abbrev pub Rewriter : Type 0
  Rewriter = Option (Ctx → Text → W → Result Text × W)

  -- What is done with a summary between its reading and the settlement: it is published as it is
  -- where there is no rewriter, and otherwise after one rewrite, whose outcome chooses the text.
  pub data Publication (rewriter : Rewriter) (ctx : Ctx) (text : Text) (es : List Event)
      : Type 0 where
    plain : rewriter ≡ none → es ≡ published text ∷ [] → Publication rewriter ctx text es
    reworked :
        (rewrite : Ctx → Text → W → Result Text × W)
        → rewriter ≡ some rewrite
        → (w : W) (report : Result Text) → (rewrite ctx text w).0 ≡ report
        → IsPublishable (choose_text text report).0
        → es ≡ rewrite_asked text ∷ published (choose_text text report).0 ∷ []
        → Publication rewriter ctx text es

  log_rewrite-effects :
      (report : Result Text) (w : W) → effects (log_rewrite contexts report w).events ≡ []
  unfolding log_rewrite
  log_rewrite-effects (err e) w = refl
  log_rewrite-effects (ok report) w = elim (Bool-cases (is_empty (trim_space report))) [
    | inl e ↦ rw e
    | inr e ↦ rw e
  ]

  pub rewrite_step-Publication :
      (rewriter : Rewriter) (ctx : Ctx) (text : Text) (w : W)
      → IsPublishable text
      → let out = rewrite_step contexts rewriter ctx text w in
        IsPublishable out.value.0
        × Publication rewriter ctx text (effects out.events ++ published out.value.0 ∷ [])
  unfolding rewrite_step
  rewrite_step-Publication none ctx text w h = (h, plain refl refl)
  rewrite_step-Publication (some rewrite) ctx text w h =
      let (report, w1) = rewrite ctx text w in
      let fit = choose_text-IsPublishable text report h in
      (
        fit,
        reworked rewrite refl w report refl fit (
            ap (λ es. rewrite_asked text ∷ (es ++ published (choose_text text report).0 ∷ []))
              (effects-append_logs (log_rewrite contexts report w1).events
                (log_rewrite-effects report w1))),
      )
