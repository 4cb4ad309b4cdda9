-- ===== src/Rewriter/Chosen.antt =====
-- What handleDelivery makes of the outcome of Rewrite, and what New sets up.
use stocker_informer.Base.{
  ◌≡◌, ◌≢◌, ◌↔◌, refl, inl, inr, true, false, [], ◌∷◌, ◌++◌, Text, ap, sym, ◌∙◌, is_empty,
  Bool-cases, ◌==◌,
}
use stocker_informer.Errors.{Result, ok, err}
use stocker_informer.Config.{OllamaConfig, default_ollama_system_prompt}
use stocker_informer.Contexts.{Contexts}
use stocker_informer.Text.{trim_space, trim_right, is_space}
use stocker_informer.Text.Trim.{drop_while_end-append, trim_space_idem, trim_space-nil_iff}
use stocker_informer.Consumer.{choose_text}
use stocker_informer.Rewriter.{
  Client, Ollama, new, rewrite, generate_path, endpoint_of, system_prompt_of,
}
use stocker_informer.Rewriter.Reports.{Reported, rewrite-ok_iff}

choose_text-ok :
    (summary t : Text) → trim_space t ≡ t → t ≢ [] → choose_text summary (ok t) ≡ (t, true)
unfolding choose_text
choose_text-ok summary [] h k = absurd (k refl)
choose_text-ok summary (r ∷ t) h k = rw h refl

default-filled : trim_space default_ollama_system_prompt ≢ []
unfolding is_space
default-filled h = cc ((trim_space-nil_iff default_ollama_system_prompt).0 h).0

filled_of : (prompt : Text) → is_empty (trim_space prompt) ≡ false → trim_space prompt ≢ []
filled_of prompt p h = cc (ap is_empty h, p)

system_prompt_of-filled : (prompt : Text) → trim_space (system_prompt_of prompt) ≢ []
unfolding system_prompt_of
system_prompt_of-filled prompt = elim (Bool-cases (is_empty (trim_space prompt))) [
  | inl p ↦ rw p default-filled
  | inr p ↦ rw p (filled_of prompt p)
]

module _ {W : Type 0} (contexts : Contexts W) (F : Type 0) where
  open contexts use {Ctx}

  module _ (o : Ollama contexts F) (ctx : Ctx) (summary : Text) (w : W) where
    chosen_of_ok :
        (t : Text)
        → (rewrite contexts F o ctx summary w).0 ≡ ok t
        → choose_text summary (ok t) ≡ (t, true)
    chosen_of_ok t h =
        let found = (rewrite-ok_iff contexts F o t ctx summary w).0 h in
        let r = found.answered.reported in
        choose_text-ok summary t
          (ap trim_space (sym r.same) ∙ (trim_space_idem found.answered.out.response ∙ r.same))
          r.filled

    chosen_of :
        (r : Result Text) (report : Text)
        → (rewrite contexts F o ctx summary w).0 ≡ r
        → (choose_text summary r ≡ (report, true)) ↔ (r ≡ ok report)
    unfolding choose_text
    chosen_of (err e) report h = (λ x. cc, λ x. cc)
    chosen_of (ok t) report h = (λ x. cc (x, chosen_of_ok t h), λ x. cc (x, chosen_of_ok t h))

    -- With this rewriter, the consumer publishes a report in place of the summary exactly if
    -- Rewrite came by it as `Reported` says.
    pub choose_text-rewrite :
        (report : Text)
        → (choose_text summary (rewrite contexts F o ctx summary w).0 ≡ (report, true))
          ↔ Reported contexts F o ctx summary w report
    choose_text-rewrite report =
        let chosen = chosen_of _ report refl in
        let found = rewrite-ok_iff contexts F o report ctx summary w in
        (λ h. found.0 (chosen.0 h), λ h. chosen.1 (found.1 h))

  -- A slash at the end of the base URL changes nothing, and the system prompt is never blank.
  pub new_endpoint :
      (client : Client contexts F) (cfg : OllamaConfig F)
      → ((new contexts F client (record cfg { base_url = cfg.base_url ++ b'/' ∷ [] })).endpoint
          ≡ (new contexts F client cfg).endpoint)
        × (trim_space (new contexts F client cfg).system_prompt ≢ [])
  unfolding new endpoint_of system_prompt_of trim_right
  new_endpoint client cfg = (
    ap (λ base. base ++ generate_path)
        (drop_while_end-append (λ c. c == b'/') cfg.base_url b'/' refl),
    system_prompt_of-filled cfg.system_prompt,
  )
