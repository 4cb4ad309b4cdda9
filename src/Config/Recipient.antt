-- ===== src/Config/Recipient.antt =====
-- normalizeRecipient of internal/config/config.go.
pub mod Handle
pub mod Accepted
use stocker_informer.Base.{
  ℕ, Bool, List, [], ◌∷◌, ◌++◌, ◌||◌, Option, none, some, Text, codes, is_empty, ltb, if◌then◌else◌,
}
use stocker_informer.Errors.{Error, message, str, Result, ok, err}
use stocker_informer.Text.{trim_space}
use stocker_informer.Text.Cut.{cut, count, trim_prefix}
use stocker_informer.Config.Env.{Library, Url}

abbrev pub at : ℕ
at = b'@'

-- The closure `invalid`.
unfoldable pub invalid_recipient : Text → Error
invalid_recipient trimmed =
    message "GOTOSOCIAL_RECIPIENT must be a fediverse handle (got %q)" (str trimmed ∷ [])

-- instanceHostname
unfoldable pub hostname_of : Option Url → Text
hostname_of none = []
hostname_of (some u) = u.hostname

-- A handle without a domain, given the hostname of the instance.
unfoldable pub borrow_domain : Text → Text → Text → Result Text
unfolding invalid_recipient
borrow_domain trimmed handle host =
    if is_empty host then err (invalid_recipient trimmed) else ok (handle ++ at ∷ host)

-- What follows strings.Cut of the handle.
unfoldable pub after_cut : Text → Text → Text → Option (Text × Text) → Result Text
unfolding invalid_recipient borrow_domain
after_cut trimmed handle host none = borrow_domain trimmed handle host
after_cut trimmed handle host (some (local, domain)) =
    if is_empty local || is_empty domain then err (invalid_recipient trimmed) else ok handle

unfoldable pub check_handle : Text → Text → Text → Result Text
unfolding invalid_recipient after_cut
check_handle trimmed handle host =
    if is_empty handle || ltb 1 (count handle at)
    then err (invalid_recipient trimmed)
    else after_cut trimmed handle host (cut handle at)

-- normalizeRecipient on a trimmed handle, given the hostname of the instance.
unfoldable pub check_recipient : Text → Text → Result Text
unfolding check_handle
check_recipient trimmed host =
    if is_empty trimmed
    then err (message "GOTOSOCIAL_RECIPIENT is required when GOTOSOCIAL_AUDIENCE=direct" [])
    else check_handle trimmed (trim_prefix trimmed at) host

unfoldable pub normalize_recipient : {F : Type 0} → Library F → Text → Text → Result Text
unfolding check_recipient hostname_of
normalize_recipient l raw instance_url =
    check_recipient (trim_space raw) (hostname_of (l.parse_url instance_url))
