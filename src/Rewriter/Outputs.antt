-- ===== src/Rewriter/Outputs.antt =====
-- The outputs of the model that Rewrite of internal/rewriter/ollama.go reports.
use stocker_informer.Base.{
  ℕ, zero, suc, ◌≤◌, ◌<◌, ◌≡◌, ◌≢◌, ◌↔◌, refl, inl, inr, Bool, true, false, ◌&&◌, [], ◌∷◌, Text,
  codes, length, text_eq, Bool-cases, arith, sym, subst, ap, ◌∙◌, text_eq_iff,
}
use stocker_informer.Int.{ℤ, pos, negsuc, ltb_ℤ}
use stocker_informer.Errors.{Result, ok, err}
use stocker_informer.Contexts.{Contexts}
use stocker_informer.Text.{trim_space}
use stocker_informer.Rewriter.{GenerateResponse, is_refusal, Ollama, check_text, check_output}

-- A number of characters is within a cap: a cap that is not positive is none.
abbrev pub Fits : ℤ → ℕ → Type 0
Fits (negsuc k) n = Unit
Fits (pos zero) n = Unit
Fits (pos (suc k)) n = n ≤ suc k

abbrev is_capped : ℤ → ℕ → Bool
is_capped cap n = ltb_ℤ (pos 0) cap && ltb_ℤ cap (pos n)

Fits-iff : (cap : ℤ) (n : ℕ) → (is_capped cap n ≡ false) ↔ Fits cap n
Fits-iff (negsuc k) n = ground arith
Fits-iff (pos zero) n = ground arith
Fits-iff (pos (suc k)) n = ground arith

pub refusal_iff : (status : ℕ) → (is_refusal status ≡ false) ↔ ((200 ≤ status) × (status < 300))
refusal_iff status = ground arith

abbrev pub is_ok : Result Text → Bool
is_ok (ok t) = true
is_ok (err e) = false

pub not_ok : {r : Result Text} {report : Text} → is_ok r ≡ false → r ≡ ok report → ⊥
not_ok {r = ok t} h e = cc
not_ok {r = err x} h e = cc

neq-text_eq : (s t : Text) → s ≢ t → text_eq s t ≡ false
neq-text_eq s t h = elim (Bool-cases (text_eq s t)) [
  | inl e ↦ absurd (h ((text_eq_iff s t).0 e))
  | inr e ↦ e
]

unwrap : {a b : Text} → ok a ≡ ok b → a ≡ b
unwrap h = cc

module _ {W : Type 0} (contexts : Contexts W) (F : Type 0) where
  open contexts use {Ctx}

  -- What makes a response a report.
  pub record IsReport (o : Ollama contexts F) (out : GenerateResponse) (report : Text)
      : Type 0 where
    pub complete : out.done ≡ true
    pub unlimited : out.done_reason ≢ codes "length"
    pub same : trim_space out.response ≡ report
    pub filled : report ≢ []
    pub fits : Fits o.max_output_chars (length report)

  check_text-ok_iff :
      (o : Ollama contexts F) (text report : Text)
      → (check_text contexts F o text ≡ ok report)
        ↔ ((text ≡ report) × (report ≢ []) × Fits o.max_output_chars (length report))
  unfolding check_text
  check_text-ok_iff o [] report = (λ h. cc, λ h. absurd (h.1 (sym h.0)))
  check_text-ok_iff o (r ∷ text) report =
      elim (Bool-cases (is_capped o.max_output_chars (length (r ∷ text)))) [
        | inl e ↦ rw e (
          λ h. cc,
          λ h.
              let k = (Fits-iff o.max_output_chars (length report)).1 h.2 in
              cc (subst (λ t. is_capped o.max_output_chars (length t) ≡ false) (sym h.0) k, e),
        )
        | inr e ↦ rw e (
          λ h.
              subst (λ t. (r ∷ text ≡ t) × (t ≢ []) × Fits o.max_output_chars (length t)) (unwrap h)
                (refl, λ x. cc, (Fits-iff o.max_output_chars (length (r ∷ text))).0 e),
          λ h. ap ok h.0,
        )
      ]

  module _ (o : Ollama contexts F) (out : GenerateResponse) where
    check_output_incomplete : out.done ≡ false → is_ok (check_output contexts F o out) ≡ false
    unfolding check_output
    check_output_incomplete d = simp d

    check_output_limited :
        out.done ≡ true
        → text_eq out.done_reason (codes "length") ≡ true
        → is_ok (check_output contexts F o out) ≡ false
    unfolding check_output
    check_output_limited d e = simp (d, e)

    check_output_text :
        out.done ≡ true
        → text_eq out.done_reason (codes "length") ≡ false
        → check_output contexts F o out ≡ check_text contexts F o (trim_space out.response)
    unfolding check_output
    check_output_text d e = simp (d, e)

    pub check_output-IsReport :
        (report : Text) → check_output contexts F o out ≡ ok report → IsReport o out report
    check_output-IsReport report h = elim (Bool-cases out.done) [
      | inl d ↦ elim (Bool-cases (text_eq out.done_reason (codes "length"))) [
        | inl e ↦ absurd (not_ok (check_output_limited d e) h)
        | inr e ↦
            let found = (check_text-ok_iff o _ report).0 (sym (check_output_text d e) ∙ h) in
            record {
              complete = d;
              unlimited = λ x. cc ((text_eq_iff _ _).1 x, e);
              same = found.0;
              filled = found.1;
              fits = found.2;
            }
      ]
      | inr d ↦ absurd (not_ok (check_output_incomplete d) h)
    ]

    pub IsReport-check_output :
        (report : Text) → IsReport o out report → check_output contexts F o out ≡ ok report
    IsReport-check_output report h =
        check_output_text h.complete (neq-text_eq _ _ h.unlimited)
        ∙ (check_text-ok_iff o _ report).1 (h.same, h.filled, h.fits)
