-- ===== src/Publisher.antt =====
-- internal/messenger/gotosocial_publisher.go: the publisher's form, its retries and its backoff.
-- Building a request, the HTTP client, the form encoding and the JSON decoder are parameters.
pub mod Form
pub mod Attempts
use Prim.Native.String.{String}
use package.text.Mathlib.Text.{◌==◌ as str_eq}
use stocker_informer.Base.{
  ℕ, zero, suc, ◌+◌, ◌-◌, ◌*◌, ◌^◌, ◌%◌, ◌&&◌, Bool, true, false, List, [], ◌∷◌, ◌++◌, Option, none,
  some, Text, codes, text_eq, ltb, leb, if◌then◌else◌,
}
use stocker_informer.Int.{ℤ, pos, pos_part, ltb_ℤ, of_bits, second, millisecond}
use stocker_informer.Errors.{Error, message, wrapped, byte_string, num, Result, ok, err}
use stocker_informer.Config.{Audience, audience_local, audience_direct}
use stocker_informer.Contexts.{Contexts}
use stocker_informer.Effects.{info, warn, posted, slept, M, ◌>>=◌, ◌>>◌, pure, log, take, note}

abbrev pub max_publish_retries : ℕ
max_publish_retries = 3

abbrev pub publish_backoff_base : ℕ
publish_backoff_base = 500 * millisecond

abbrev pub publish_max_backoff : ℕ
publish_max_backoff = 30 * second

abbrev pub max_status_id_bytes : ℕ
max_status_id_bytes = 64 * 2 ^ 10

-- url.Values with one value to a key, in the order in which the keys were set.
abbrev pub Values : Type 0
Values = List (String × Text)

-- Values.Set
unfoldable pub set : String → Text → Values → Values
set k v [] = (k, v) ∷ []
set k v ((j, u) ∷ form) = if str_eq j k then (k, v) ∷ form else (j, u) ∷ set k v form

unfoldable pub lookup : String → Values → Option Text
lookup k [] = none
lookup k ((j, u) ∷ form) = if str_eq j k then some u else lookup k form

-- The time to wait before the given retry. The shift is one of 64-bit integers.
unfoldable pub publish_backoff : ℕ → ℤ
publish_backoff attempt =
    let backoff = of_bits ((publish_backoff_base * 2 ^ attempt) % 2 ^ 64) in
    if ltb_ℤ (pos publish_max_backoff) backoff then pos publish_max_backoff else backoff

-- The first bytes of a body: io.LimitReader.
abbrev pub limit_reader : ℕ → List ℕ → List ℕ
limit_reader zero bytes = []
limit_reader (suc n) [] = []
limit_reader (suc n) (b ∷ bytes) = b ∷ limit_reader n bytes

-- A response: its status code and the bytes of its body.
pub record Response : Type 0 where
  pub status : ℕ
  pub body : List ℕ

-- 200 <= status < 300
abbrev pub is_success : ℕ → Bool
is_success status = leb 200 status && ltb status 300

abbrev pub error_of : Result Text → Option Error
error_of (ok id) = none
error_of (err e) = some e

module _ {W : Type 0} (contexts : Contexts W) where
  open contexts use {Ctx}

  pub record Publisher : Type 0 where
    pub instance_url : Text
    pub username : Text
    pub token : Text
    pub audience : Audience
    pub recipient : Text
    -- http.NewRequestWithContext for a POST of a body to an endpoint: its error
    pub new_request : Ctx → Text → Text → Option Error
    -- client.Do of that request, with the token in its header
    pub send : Ctx → Text → Text → Text → W → Result Response × W
    -- Values.Encode
    pub encode : Values → Text
    -- the JSON decoder of {"id": …}
    pub decode_id : List ℕ → Result Text

  unfoldable pub form : Publisher → Text → Values
  form p text =
      let base = set "content_type" (codes "text/markdown") [] in
      if text_eq p.audience audience_local
      then set "local_only" (codes "true")
          (set "visibility" (codes "public") (set "status" text base))
      else if text_eq p.audience audience_direct
      then set "local_only" (codes "false") (
          set "visibility" (codes "direct")
            (set "status" (codes "@" ++ (p.recipient ++ (codes " " ++ text))) base))
      else set "local_only" (codes "false")
          (set "visibility" (codes "public") (set "status" text base))

  abbrev or_empty : Result Text → Text
  or_empty (ok id) = id
  or_empty (err e) = []

  unfoldable pub decode_status_id : Publisher → List ℕ → Text
  decode_status_id p body = or_empty (p.decode_id (limit_reader max_status_id_bytes body))

  -- A failed attempt: wait and go on, or give up after the last one.
  unfoldable pub retry : M W (Result Text) → ℕ → Error → M W (Result Text)
  retry next attempt e =
      if ltb attempt (max_publish_retries - 1)
      then (do note (slept (pos_part (publish_backoff attempt))); next)
      else pure (err e)

  -- What follows client.Do.
  unfoldable pub after_send :
      Publisher → M W (Result Text) → ℕ → Result Response → M W (Result Text)
  unfolding decode_status_id retry
  after_send p next attempt (err e) = do
    note (posted none)
    log warn "publish attempt failed"
    retry next attempt
        (wrapped "send status attempt %d to GoToSocial: %w" (num (attempt + 1) ∷ []) e)
  after_send p next attempt (ok response) = do
    note (posted (some response.status))
    let accepted = do
      log info "status published on GoToSocial"
      pure (ok (decode_status_id p response.body))
    let refused = do
      log warn "publish attempt failed status code"
      retry next attempt (
          message "GoToSocial API returned status %d: %s"
            (num response.status ∷ byte_string response.body ∷ []))
    if is_success response.status then accepted else refused

  -- The loop: `left` attempts remain, the next of which is number `attempt`.
  unfoldable pub publish_from : ℕ → ℕ → Publisher → Ctx → Text → Text → M W (Result Text)
  unfolding after_send
  publish_from zero attempt p ctx endpoint body w =
      pure (err (message "publish failed after %d attempt(s)" (num max_publish_retries ∷ []))) w
  publish_from (suc left) attempt p ctx endpoint body w = elim (p.new_request ctx endpoint body) [
    | some e ↦ pure (err (wrapped "create request: %w" [] e)) w
    | none ↦
        (do
          response ← take (p.send ctx endpoint p.token body)
          after_send p (publish_from left (attempt + 1) p ctx endpoint body) attempt response)
          w
  ]

  -- publish: the id of the created status.
  unfoldable pub publish_status : Publisher → Ctx → Text → M W (Result Text)
  unfolding publish_from form
  publish_status p ctx text =
      publish_from max_publish_retries 0 p ctx (p.instance_url ++ codes "/api/v1/statuses")
        (p.encode (form p text))

  -- Publish: its error.
  unfoldable pub publish : Publisher → Ctx → Text → M W (Option Error)
  unfolding publish_status
  publish p ctx text = do result ← publish_status p ctx text; pure (error_of result)
