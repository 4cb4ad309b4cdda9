-- ===== src/Examples/Keys.antt =====
-- The prefix of an environment, and the keys that come of it.
use stocker_informer.Base.{◌≡◌, refl, Bool, [], some, codes}
use stocker_informer.Errors.{no_such_key, ok}
use stocker_informer.Text.{
  trim_space, drop_while, drop_while_end, is_space, to_lower, rune_lower, has_prefix, split, join,
}
use stocker_informer.Text.Cut.{atoi, digits, digits_from, cut, count, trim_prefix}
use stocker_informer.Config.Env.{get_env}
use stocker_informer.Config.Load.{Config, loaded, load_checked, load}
use stocker_informer.Store.{Api, Client, failed, new_with_api, normalize_prefix, build_key}
use stocker_informer.Server.Keys.{load-build_key}
use stocker_informer.Examples.World.{contexts}
use stocker_informer.Examples.Config.{library}

abbrev settings : Config Bool
settings = (load_checked (library (codes "30"))).0

settings-loaded : load (library (codes "30")) ≡ loaded settings
unfolding load load_checked trim_space drop_while drop_while_end is_space to_lower rune_lower atoi
    digits digits_from cut count trim_prefix has_prefix split join
settings-loaded = refl

abbrev no_object : Api contexts
no_object ctx bucket name w = (failed no_such_key, w)

abbrev client : Client contexts
client = record {
  api = no_object;
  bucket = settings.s3.bucket;
  prefix = normalize_prefix settings.s3.path_prefix;
  timeout = settings.s3.timeout;
}

client-new : new_with_api contexts (some settings.s3) (some no_object) ≡ ok client
unfolding new_with_api
client-new = refl

load-build_key_example :
    build_key (library (codes "30")).table client.prefix (codes "nyse ") (codes "abc")
    ≡ build_key
        (library (codes "30")).table
        (get_env (library (codes "30")) "S3_PATH_PREFIX" [])
        (codes "nyse ")
        (codes "abc")
load-build_key_example =
    load-build_key (library (codes "30")) contexts settings no_object client (codes "nyse ")
      (codes "abc") settings-loaded client-new
