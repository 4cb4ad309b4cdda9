-- ===== src/Config/Env.antt =====
-- internal/config/config.go: reading one variable of the environment. The environment and the
-- parsers of packages net, net/url and strconv are parameters, but for Atoi and ParseBool.
use Prim.Native.String.{String}
use stocker_informer.Base.{
  ℕ, Bool, true, false, ◌||◌, List, [], ◌∷◌, Option, none, some, Text, codes, text_eq, is_empty,
  if◌then◌else◌,
}
use stocker_informer.Int.{ℤ, pos, ltb_ℤ}
use stocker_informer.Errors.{Error, message, word, str, num, int}
use stocker_informer.Text.{CaseTable, trim_space, to_lower}
use stocker_informer.Text.Cut.{atoi}

-- *url.URL: what the program reads of it
pub record Url : Type 0 where
  pub scheme : Text
  pub host : Text
  -- Hostname() and Port()
  pub hostname : Text
  pub port : Text
  -- String(), once the user, the query and the fragment are gone
  pub redacted : Text

-- `F` is the type of 64-bit floating-point numbers.
pub record Library (F : Type 0) : Type 0 where
  -- os.LookupEnv
  pub lookup_env : String → Option Text
  pub table : CaseTable
  -- url.Parse, without its error
  pub parse_url : Text → Option Url
  -- net.SplitHostPort: the port, without its error
  pub split_host_port : Text → Option Text
  -- strconv.ParseFloat, without its error
  pub parse_float : Text → Option F
  pub is_nan : F → Bool
  pub is_inf : F → Bool
  pub less : F → F → Bool
  -- the literals: a number of tenths
  pub tenths : ℕ → F
  -- the verb %v
  pub show : F → Text

-- A value, and the problems that were found on the way to it.
abbrev pub Checked : Type 0 → Type 0
Checked A = A × List Error

-- A call of `add` when there is an error.
abbrev pub problems : Option Error → List Error
problems none = []
problems (some e) = e ∷ []

-- strconv.ParseBool
unfoldable pub parse_bool : Text → Option Bool
parse_bool s =
    if text_eq s (codes "1")
      || text_eq s (codes "t")
      || text_eq s (codes "T")
      || text_eq s (codes "true")
      || text_eq s (codes "TRUE")
      || text_eq s (codes "True")
    then some true
    else if text_eq s (codes "0")
        || text_eq s (codes "f")
        || text_eq s (codes "F")
        || text_eq s (codes "false")
        || text_eq s (codes "FALSE")
        || text_eq s (codes "False")
    then some false
    else none

-- The upper bound of an integer setting. The messages of the settings differ in the name only.
unfoldable pub check_max : String → ℤ → Option ℕ → ℤ → Checked ℤ
check_max name fallback none n = (n, [])
check_max name fallback (some most) n =
    if ltb_ℤ (pos most) n
    then (fallback, message "%s must be <= %d (got %d)" (word name ∷ num most ∷ int n ∷ []) ∷ [])
    else (n, [])

unfoldable pub check_positive : String → ℤ → Option ℕ → Text → Option ℤ → Checked ℤ
unfolding check_max
check_positive name fallback most raw none =
    (fallback, message "%s must be an integer (got %q)" (word name ∷ str raw ∷ []) ∷ [])
check_positive name fallback most raw (some n) =
    if ltb_ℤ (pos 0) n
    then check_max name fallback most n
    else (fallback, message "%s must be > 0 (got %d)" (word name ∷ int n ∷ []) ∷ [])

module _ {F : Type 0} (l : Library F) where
  -- getEnv
  unfoldable pub get_env : String → Text → Text
  get_env key fallback = elim (l.lookup_env key) [
    | none ↦ fallback
    | some v ↦ if is_empty v then fallback else v
  ]

  -- strings.TrimSpace of getEnv
  unfoldable pub env : String → Text → Text
  unfolding get_env
  env key fallback = trim_space (get_env key fallback)

  -- A setting that is a positive integer, with its default and its greatest value.
  unfoldable pub positive_setting : String → ℤ → Option ℕ → Checked ℤ
  unfolding env check_positive
  positive_setting name fallback most =
      let raw = env name [] in
      if is_empty raw then (fallback, []) else check_positive name fallback most raw (atoi raw)

  -- Whether a URL is one of the schemes http and https, with a host.
  unfoldable pub is_web_url : Option Url → Bool
  is_web_url none = false
  is_web_url (some u) =
      if is_empty u.host
      then false
      else text_eq (to_lower l.table u.scheme) (codes "http")
        || text_eq (to_lower l.table u.scheme) (codes "https")

  unfoldable pub validate_url : String → Text → Option Error
  unfolding is_web_url
  validate_url name raw =
      if is_web_url (l.parse_url raw)
      then none
      else some (
          message "%s must be an absolute URL with scheme and host (got %q)"
            (word name ∷ str raw ∷ []))
