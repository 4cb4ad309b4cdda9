-- ===== src/Rewriter/Reports.antt =====
-- The reports that Rewrite of internal/rewriter/ollama.go returns.
use stocker_informer.Base.{
  ℕ, ◌≤◌, ◌<◌, ◌≡◌, ◌↔◌, refl, inl, inr, true, false, List, none, some, Text, Bool-cases,
  Option-cases, sym, ap, ◌∙◌,
}
use stocker_informer.Errors.{Error, Result, ok, err}
use stocker_informer.Contexts.{Contexts}
use stocker_informer.Rewriter.{
  limit_body, max_response_bytes, GenerateResponse, is_refusal, Response, Ollama, request_of,
  after_decode, read_response, after_send, call_ollama, after_marshal, rewrite,
}
use stocker_informer.Rewriter.Outputs.{
  refusal_iff, is_ok, not_ok, IsReport, check_output-IsReport, IsReport-check_output,
}

module _ {W : Type 0} (contexts : Contexts W) (F : Type 0) where
  open contexts use {Ctx}

  -- What makes an HTTP response one that is reported.
  pub record Answers (o : Ollama contexts F) (r : Response contexts F) (report : Text)
      : Type 0 where
    pub accepted : (200 ≤ r.status) × (r.status < 300)
    pub out : GenerateResponse
    pub decoded : o.client.decode (limit_body max_response_bytes r.body) ≡ ok out
    pub reported : IsReport contexts F o out report

  -- How a report comes about.
  pub record Reported (o : Ollama contexts F) (ctx : Ctx) (summary : Text) (w : W) (report : Text)
      : Type 0 where
    pub payload : List ℕ
    pub marshalled :
        o.client.marshal (request_of contexts F o (o.client.today w) summary) ≡ ok payload
    pub created : o.client.new_request ctx o.endpoint payload ≡ none
    pub response : Response contexts F
    pub sent : (o.client.send o.timeout ctx o.endpoint payload w).0 ≡ ok response
    pub answered : Answers o response report

  module _ (o : Ollama contexts F) (report : Text) where
    decoded_of_ok :
        (d : Result GenerateResponse)
        → after_decode contexts F o d ≡ ok report
        → (out : GenerateResponse) × (d ≡ ok out) × IsReport contexts F o out report
    unfolding after_decode
    decoded_of_ok (err e) h = absurd (not_ok refl h)
    decoded_of_ok (ok out) h = (out, refl, check_output-IsReport contexts F o out report h)

    read_response_refused :
        (r : Response contexts F)
        → is_refusal r.status ≡ true
        → is_ok (read_response contexts F o r) ≡ false
    unfolding read_response
    read_response_refused r h = simp h

    read_response_accepted :
        (r : Response contexts F)
        → is_refusal r.status ≡ false
        → read_response contexts F o r
          ≡ after_decode contexts F o (o.client.decode (limit_body max_response_bytes r.body))
    unfolding read_response
    read_response_accepted r h = simp h

    read_response-Answers :
        (r : Response contexts F) → read_response contexts F o r ≡ ok report → Answers o r report
    read_response-Answers r h = elim (Bool-cases (is_refusal r.status)) [
      | inl e ↦ absurd (not_ok (read_response_refused r e) h)
      | inr e ↦
          let (out, decoded, reported) = decoded_of_ok _ (sym (read_response_accepted r e) ∙ h) in
          record {
            accepted = (refusal_iff r.status).0 e;
            out = out;
            decoded = decoded;
            reported = reported;
          }
    ]

    Answers-read_response :
        (r : Response contexts F) → Answers o r report → read_response contexts F o r ≡ ok report
    unfolding after_decode
    Answers-read_response r h =
        read_response_accepted r ((refusal_iff r.status).1 h.accepted)
        ∙ (ap (after_decode contexts F o) h.decoded
            ∙ IsReport-check_output contexts F o h.out report h.reported)

    sent_of_ok :
        (answer : Result (Response contexts F)) (w : W)
        → (after_send contexts F o answer w).0 ≡ ok report
        → (r : Response contexts F) × (answer ≡ ok r) × Answers o r report
    unfolding after_send
    sent_of_ok (err e) w h = cc
    sent_of_ok (ok r) w h = (r, refl, read_response-Answers r h)

    marshalled_of_ok :
        (m : Result (List ℕ)) (ctx : Ctx) (w : W)
        → (after_marshal contexts F o ctx m w).0 ≡ ok report
        → (payload : List ℕ) × (m ≡ ok payload)
          × ((call_ollama contexts F o ctx payload w).0 ≡ ok report)
    unfolding after_marshal
    marshalled_of_ok (err e) ctx w h = absurd (not_ok refl h)
    marshalled_of_ok (ok payload) ctx w h = (payload, refl, h)

    module _ (ctx : Ctx) (payload : List ℕ) (w : W) where
      abbrev answer : Result (Response contexts F) × W
      answer = o.client.send o.timeout ctx o.endpoint payload w

      call_ollama_sends :
          o.client.new_request ctx o.endpoint payload ≡ none
          → call_ollama contexts F o ctx payload w ≡ after_send contexts F o answer.0 answer.1
      unfolding call_ollama
      call_ollama_sends h = rw (h, call_ollama)

      call_ollama_fails :
          {e : Error}
          → o.client.new_request ctx o.endpoint payload ≡ some e
          → is_ok (call_ollama contexts F o ctx payload w).0 ≡ false
      unfolding call_ollama
      call_ollama_fails h = rw (h, call_ollama)

      created_of_ok :
          (call_ollama contexts F o ctx payload w).0 ≡ ok report
          → (o.client.new_request ctx o.endpoint payload ≡ none)
            × ((r : Response contexts F) × (answer.0 ≡ ok r) × Answers o r report)
      created_of_ok h = elim (Option-cases (o.client.new_request ctx o.endpoint payload)) [
        | inl p ↦ (p, sent_of_ok answer.0 answer.1 (sym (ap (λ x. x.0) (call_ollama_sends p)) ∙ h))
        | inr (e, p) ↦ absurd (not_ok (call_ollama_fails p) h)
      ]

    module _ (ctx : Ctx) (summary : Text) (w : W) where
      Reported-of_ok :
          (rewrite contexts F o ctx summary w).0 ≡ ok report → Reported o ctx summary w report
      unfolding rewrite
      Reported-of_ok h =
          let (payload, marshalled, called) = marshalled_of_ok _ ctx w h in
          let (created, received) = created_of_ok ctx payload w called in
          let (r, sent, answered) = received in
          record {
            payload = payload;
            marshalled = marshalled;
            created = created;
            response = r;
            sent = sent;
            answered = answered;
          }

      ok_of-Reported :
          Reported o ctx summary w report → (rewrite contexts F o ctx summary w).0 ≡ ok report
      unfolding rewrite after_marshal after_send
      ok_of-Reported h =
          let reply = answer ctx h.payload w in
          ap (λ m. (after_marshal contexts F o ctx m w).0) h.marshalled
          ∙ (ap (λ x. x.0) (call_ollama_sends ctx h.payload w h.created)
              ∙ (ap (λ a. (after_send contexts F o a reply.1).0) h.sent
                  ∙ Answers-read_response h.response h.answered))

      -- Rewrite returns a report exactly if the request can be built, the server answers it with a
      -- status from 200 to 299, and the first mebibyte of the body decodes to a response that is
      -- complete, was not stopped by the token limit, and holds that report once it is trimmed;
      -- and the report is not empty, and within the cap on its characters, where that is positive.
      pub rewrite-ok_iff :
          ((rewrite contexts F o ctx summary w).0 ≡ ok report) ↔ Reported o ctx summary w report
      rewrite-ok_iff = (Reported-of_ok, ok_of-Reported)
