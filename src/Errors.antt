-- ===== src/Errors.antt =====
-- Go errors as values: sentinels, formatted messages and chains of wrapped errors.
use Prim.Native.String.{String}
use stocker_informer.Base.{ℕ, Bool, true, false, List, Option, none, some, Text}
use stocker_informer.Int.{ℤ}

-- An argument of a format string.
pub data Arg : Type 0 where
  str : Text → Arg
  -- a string made of bytes
  byte_string : List ℕ → Arg
  -- that string trimmed of white space
  trimmed_string : List ℕ → Arg
  word : String → Arg
  num : ℕ → Arg
  int : ℤ → Arg

pub data Error : Type 0 where
  -- summarystore.ErrNotFound
  summary_not_found : Error
  -- errSessionClosed of package rabbitmq
  session_closed : Error
  -- context.Canceled and context.DeadlineExceeded
  canceled deadline_exceeded : Error
  -- errors.New, and fmt.Errorf without %w
  message : String → List Arg → Error
  -- fmt.Errorf with %w
  wrapped : String → List Arg → Error → Error
  -- errors.Join of two errors
  joined : Error → Error → Error
  -- *types.NoSuchKey and *types.NotFound of the S3 client
  no_such_key object_not_found : Error
  -- any other smithy.APIError, with its code
  api_error : String → Error
  -- an error with a method HTTPStatusCode, around its cause
  http_status : ℕ → Error → Error
  -- an error of a library of which the program looks at nothing
  opaque_error : ℕ → Error

pub data Result {ℓ} (A : Type ℓ) : Type ℓ where
  ok : A → Result A
  err : Error → Result A

abbrev pub or_else {ℓ} : {A : Type ℓ} → Option A → Option A → Option A
or_else none b = b
or_else (some a) b = some a

-- errors.As: the first error of the chain that fits.
unfoldable pub as_error {ℓ} : {A : Type ℓ} → (Error → Option A) → Error → Option A
as_error p (wrapped f xs e) = or_else (p (wrapped f xs e)) (as_error p e)
as_error p (joined d e) = or_else (p (joined d e)) (or_else (as_error p d) (as_error p e))
as_error p (http_status n e) = or_else (p (http_status n e)) (as_error p e)
as_error p e = p e

abbrev pub is_some {ℓ} : {A : Type ℓ} → Option A → Bool
is_some none = false
is_some (some a) = true

abbrev pub summary_not_found? : Error → Option (Unit {0})
summary_not_found? summary_not_found = some tt
summary_not_found? e = none

-- errors.Is(err, summarystore.ErrNotFound)
unfoldable pub is_summary_not_found : Error → Bool
unfolding as_error
is_summary_not_found e = is_some (as_error summary_not_found? e)
