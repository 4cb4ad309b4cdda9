-- ===== src/Examples/Config.antt =====
-- A configuration, and the handles and authorities in it.
use Prim.Native.String.{String}
use text.Mathlib.Text.{◌==◌ as str_eq}
use stocker_informer.Base.{
  inr, ◌*◌, ◌≤◌, ◌≡◌, ◌↔◌, refl, Bool, true, false, List, [], ◌∷◌, Option, none, some, Text, codes,
  arith, if◌then◌else◌,
}
use stocker_informer.Int.{pos, second}
use stocker_informer.Text.{
  trim_space, drop_while, drop_while_end, is_space, to_lower, rune_lower, has_prefix,
}
use stocker_informer.Errors.{ok}
use stocker_informer.Text.Split.{Lacks}
use stocker_informer.Text.Cut.Laws.{Lacks-of_count}
use stocker_informer.Text.Cut.{
  atoi, digits, digits_from, cut, count, trim_prefix, after_first, until_any, after_last,
}
use stocker_informer.Config.Env.{Url, Library, env, get_env}
use stocker_informer.Config.Recipient.{hostname_of, normalize_recipient}
use stocker_informer.Config.Recipient.Accepted.{normalize_recipient_accepts}
use stocker_informer.Config.Recipient.Handle.{IsHandleResult, normalize_recipient-IsHandle}
use stocker_informer.Config.Broker.{amqp_authority}
use stocker_informer.Config.Broker.Authority.{IsAuthority, amqp_authority-IsAuthority}
use stocker_informer.Config.Load.{
  Config, Loaded, loaded, invalid_configuration, load, load_s3_timeout,
}
use stocker_informer.Config.Load.Valid.{IsLoaded, load-IsLoaded}
use stocker_informer.Config.Load.Timeouts.{load_s3_timeout_iff}
use stocker_informer.Examples.World.{plain_case}

abbrev lookup_in : List (String × Text) → String → Option Text
lookup_in [] key = none
lookup_in ((name, value) ∷ vars) key = if str_eq name key then some value else lookup_in vars key

-- Every URL is one of the host "social.example", of the scheme of its first runes.
abbrev parse : Text → Option Url
parse raw = some (record {
  scheme = if has_prefix raw (codes "amqp") then codes "amqp" else codes "http";
  host = codes "social.example";
  hostname = codes "social.example";
  port = [];
  redacted = raw;
})

abbrev pub library : Text → Library Bool
library timeout = record {
  lookup_env = lookup_in (
      ("GOTOSOCIAL_INSTANCE", codes "https://social.example")
      ∷ ("GOTOSOCIAL_USER", codes "cora")
      ∷ ("GOTOSOCIAL_TOKEN", codes "token")
      ∷ ("GOTOSOCIAL_AUDIENCE", codes " Direct")
      ∷ ("GOTOSOCIAL_RECIPIENT", codes "@ann")
      ∷ ("S3_BUCKET", codes "summaries")
      ∷ ("S3_ACCESS_KEY", codes "key")
      ∷ ("S3_SECRET_KEY", codes "secret")
      ∷ ("S3_PATH_PREFIX", codes " /a//b ")
      ∷ ("S3_TIMEOUT_SECONDS", timeout)
      ∷ []);
  table = plain_case;
  parse_url = parse;
  split_host_port = λ a. none;
  parse_float = λ raw. none;
  is_nan = λ x. false;
  is_inf = λ x. false;
  less = λ x y. false;
  tenths = λ n. true;
  show = λ x. [];
}

abbrev accepted : Loaded Bool → Option Text
accepted (loaded cfg) = some cfg.goto_social_recipient
accepted (invalid_configuration es) = none

-- The configuration is loaded, and the recipient borrows the instance's host.
the_recipient : accepted (load (library (codes "30"))) ≡ some (codes "ann@social.example")
unfolding load trim_space drop_while drop_while_end is_space to_lower rune_lower atoi digits
    digits_from cut count trim_prefix has_prefix
the_recipient = refl

-- Without its credentials it is not.
nothing_set : accepted (load (record (library []) { lookup_env = λ key. none })) ≡ none
unfolding load trim_space drop_while drop_while_end is_space to_lower rune_lower
nothing_set = refl

load-IsLoaded_example : IsLoaded (library (codes "30")) (load (library (codes "30")))
load-IsLoaded_example = load-IsLoaded (library (codes "30"))

normalize_recipient-IsHandle_example :
    IsHandleResult
      (hostname_of (parse (codes "https://social.example")))
      (normalize_recipient (library []) (codes " @ann ") (codes "https://social.example"))
normalize_recipient-IsHandle_example =
    normalize_recipient-IsHandle (library []) (codes " @ann ") (codes "https://social.example")

the_authority : amqp_authority (codes "amqp://u:p@host:5672/vhost") ≡ some (codes "host:5672")
unfolding amqp_authority after_first until_any after_last has_prefix
the_authority = refl

amqp_authority-IsAuthority_example :
    IsAuthority (amqp_authority (codes "amqp://u:p@host:5672/vhost"))
amqp_authority-IsAuthority_example = amqp_authority-IsAuthority (codes "amqp://u:p@host:5672/vhost")

too_long :
    atoi (env (library (codes "9223372037")) "S3_TIMEOUT_SECONDS" []) ≡ some (pos 9_223_372_037)
unfolding env get_env trim_space drop_while drop_while_end is_space atoi digits digits_from
too_long = refl

load_s3_timeout_iff_example :
    ((load_s3_timeout (library (codes "9223372037"))).0 ≡ pos (9_223_372_037 * second))
    ↔ (9_223_372_037 ≤ 9_223_372_036)
load_s3_timeout_iff_example =
    load_s3_timeout_iff (library (codes "9223372037")) 9_223_372_037 too_long (omega arith)

ann_bare : Lacks b'@' (codes "ann")
unfolding count
ann_bare = Lacks-of_count (codes "ann") b'@' refl

domain_bare : Lacks b'@' (codes "b.example")
unfolding count
domain_bare = Lacks-of_count (codes "b.example") b'@' refl

trimmed_handle : trim_space (codes " @ann@b.example ") ≡ codes "@ann@b.example"
unfolding trim_space drop_while drop_while_end is_space
trimmed_handle = refl

normalize_recipient_accepts_example :
    normalize_recipient (library []) (codes " @ann@b.example ") (codes "https://social.example")
    ≡ ok (codes "ann@b.example")
normalize_recipient_accepts_example =
    normalize_recipient_accepts (library []) (codes " @ann@b.example ")
      (codes "https://social.example") (codes "ann") (codes "b.example") (λ h. cc) (λ h. cc)
      ann_bare domain_bare (inr trimmed_handle)
