-- ===== src/Store.antt =====
-- internal/summarystore/store.go: the client that reads a stock's summary from the object store.
-- The S3 client and contexts are parameters; `W` is the state of the world that they act on.
pub mod Prefix
pub mod Key
pub mod Segments
pub mod Spelling
pub mod Accepted
pub mod Folder
pub mod Miss
pub mod Missed
pub mod Read
use Prim.Native.String.{String}
use text.Mathlib.Text.{◌==◌ as str_eq}
use stocker_informer.Base.{
  ℕ, Bool, true, false, not, ◌||◌, List, [], ◌∷◌, ◌++◌, map, Option, none, some, Text, codes, ◌==◌,
  is_empty, if◌then◌else◌,
}
use stocker_informer.Int.{ℤ, pos, ltb_ℤ}
use stocker_informer.Errors.{
  Error, summary_not_found, message, wrapped, no_such_key, object_not_found, api_error, http_status,
  str, word, Result, ok, err, as_error, is_some,
}
use stocker_informer.Config.{S3Config}
use stocker_informer.Contexts.{Contexts}
use stocker_informer.Text.{CaseTable, trim_space, contains, split, join, to_upper}

abbrev pub slash : ℕ
slash = b'/'

abbrev pub dots : Text
dots = b'.' ∷ b'.' ∷ []

-- The loop of normalizePrefix: trim each part and keep it if something is left.
unfoldable pub kept_segments : List Text → List Text
kept_segments [] = []
kept_segments (part ∷ parts) =
    let rest = kept_segments parts in
    let part' = trim_space part in if is_empty part' then rest else part' ∷ rest

unfoldable pub normalize_prefix : Text → Text
unfolding kept_segments
normalize_prefix prefix = join (kept_segments (split prefix slash)) slash

unfoldable pub check_segment : String → Text → Option Error
check_segment name value =
    if contains value (slash ∷ [])
    then some (message "summarystore: %s must not contain %q" (word name ∷ word "/" ∷ []))
    else if contains value dots
    then some (message "summarystore: %s must not contain %q" (word name ∷ word ".." ∷ []))
    else none

module _ (table : CaseTable) where
  -- The key of a checked identity.
  unfoldable pub object_key : Text → Text → Text → Text
  object_key prefix exchange symbol =
      let key = to_upper table exchange ++ slash ∷ (to_upper table symbol ++ codes "/summary.md") in
      let p = normalize_prefix prefix in if is_empty p then key else p ++ slash ∷ key

  -- BuildKey on trimmed arguments.
  unfoldable pub checked_key : Text → Text → Text → Result Text
  unfolding object_key check_segment
  checked_key prefix exchange symbol =
      if is_empty exchange
      then err (message "summarystore: exchange must not be empty" [])
      else if is_empty symbol
      then err (message "summarystore: symbol must not be empty" [])
      else elim (check_segment "exchange" exchange) [
        | some e ↦ err e
        | none ↦ elim (check_segment "symbol" symbol) [
          | some e ↦ err e
          | none ↦
              if contains prefix dots
              then err (message "summarystore: path prefix must not contain \"..\"" [])
              else ok (object_key prefix exchange symbol)
        ]
      ]

  unfoldable pub build_key : Text → Text → Text → Result Text
  unfolding checked_key
  build_key prefix exchange symbol =
      checked_key (trim_space prefix) (trim_space exchange) (trim_space symbol)

abbrev pub no_such_key? : Error → Option (Unit {0})
no_such_key? no_such_key = some tt
no_such_key? e = none

abbrev pub object_not_found? : Error → Option (Unit {0})
object_not_found? object_not_found = some tt
object_not_found? e = none

-- smithy.APIError: the two S3 types implement it too.
abbrev pub api_code? : Error → Option String
api_code? no_such_key = some "NoSuchKey"
api_code? object_not_found = some "NotFound"
api_code? (api_error code) = some code
api_code? e = none

abbrev pub status? : Error → Option ℕ
status? (http_status n e) = some n
status? e = none

abbrev pub is_miss_code : Option String → Bool
is_miss_code none = false
is_miss_code (some code) = str_eq code "NoSuchKey" || str_eq code "NotFound"

abbrev pub is_miss_status : Option ℕ → Bool
is_miss_status none = false
is_miss_status (some n) = n == 404

unfoldable pub is_not_found : Error → Bool
unfolding as_error
is_not_found e =
    if is_some (as_error no_such_key? e)
    then true
    else if is_some (as_error object_not_found? e)
    then true
    else if is_miss_code (as_error api_code? e)
    then true
    else is_miss_status (as_error status? e)

-- io.ReadCloser, as the program uses it
pub record Body (W : Type 0) : Type 0 where
  pub read_all : W → Result Text × W
  pub close : W → W

-- What GetObject returns: an error, or an output whose body may be missing.
pub data Output (W : Type 0) : Type 0 where
  failed : Error → Output W
  no_output : Output W
  no_body : Output W
  body : Body W → Output W

module _ {W : Type 0} (contexts : Contexts W) where
  open contexts use {Ctx, ctx_err, with_timeout, cancel}

  -- API: the bucket and the key of a GetObjectInput
  abbrev pub Api : Type 0
  Api = Ctx → Text → Text → W → Output W × W

  pub record Client : Type 0 where
    pub api : Api
    pub bucket : Text
    pub prefix : Text
    pub timeout : ℤ

  unfoldable pub new_with_api : Option S3Config → Option Api → Result Client
  new_with_api none api = err (message "summarystore: nil S3 config" [])
  new_with_api (some cfg) none = err (message "summarystore: nil S3 API" [])
  new_with_api (some cfg) (some api) = ok (record {
    api = api;
    bucket = cfg.bucket;
    prefix = normalize_prefix cfg.path_prefix;
    timeout = cfg.timeout;
  })

  -- The deferred Close runs after the read, whatever it returned.
  unfoldable pub read_body : Text → Output W → W → Result Text × W
  read_body key (failed e) w = (err e, w)
  read_body key no_output w =
      (err (message "summarystore: get %q: response has no body" (str key ∷ [])), w)
  read_body key no_body w =
      (err (message "summarystore: get %q: response has no body" (str key ∷ [])), w)
  read_body key (body b) w = let (result, w') = b.read_all w in (result, b.close w')

  unfoldable pub get : Client → Ctx → Text → W → Result Text × W
  unfolding read_body
  get c ctx key w = let (out, w') = c.api ctx c.bucket key w in read_body key out w'

  unfoldable pub wrap_read_error : Ctx → Text → Error → W → Error
  wrap_read_error ctx key e w = elim (ctx_err ctx w) [
    | some ctx_error ↦ wrapped "summarystore: read %q: %w" (str key ∷ []) ctx_error
    | none ↦ wrapped "summarystore: read %q: %w" (str key ∷ []) e
  ]

  -- What ReadSummary makes of the result of get.
  unfoldable pub read_result : Ctx → Text → Result Text → W → Result Text
  unfolding wrap_read_error
  read_result ctx key (ok content) w = ok content
  read_result ctx key (err e) w =
      if is_not_found e
      then err (wrapped "summarystore: read %q: %w" (str key ∷ []) summary_not_found)
      else err (wrap_read_error ctx key e w)

  unfoldable pub read_at : Client → Ctx → Text → W → Result Text × W
  unfolding get read_result
  read_at c ctx key w = let (result, w') = get c ctx key w in (read_result ctx key result w', w')

  -- `defer cancel()` runs last.
  unfoldable pub read_key : Client → Ctx → Text → W → Result Text × W
  unfolding read_at
  read_key c ctx key w =
      if ltb_ℤ (pos 0) c.timeout
      then (let (ctx', w1) = with_timeout ctx c.timeout w in
          let (result, w2) = read_at c ctx' key w1 in (result, cancel ctx' w2))
      else read_at c ctx key w

  unfoldable pub read_summary : CaseTable → Client → Ctx → Text → Text → W → Result Text × W
  unfolding read_key
  read_summary table c ctx exchange symbol w = elim (build_key table c.prefix exchange symbol) [
    | err e ↦ (err e, w)
    | ok key ↦ read_key c ctx key w
  ]

  -- Close of the client: there is nothing to release.
  unfoldable pub close_client : Client → Option Error
  close_client c = none
