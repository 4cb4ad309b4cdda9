-- ===== src/Server/Keys.antt =====
-- The prefix of the object keys on its way through cmd/server/main.go: read from S3_PATH_PREFIX and
-- normalised by internal/config/config.go, then by internal/summarystore/store.go, and once more
-- by BuildKey.
use stocker_informer.Base.{◌≡◌, ap, List, [], ◌∷◌, some, Text}
use stocker_informer.Errors.{Error, ok}
use stocker_informer.Contexts.{Contexts}
use stocker_informer.Config.{S3Config}
use stocker_informer.Config.Env.{Library, get_env}
use stocker_informer.Config.Checks.{normalize_path_prefix}
use stocker_informer.Config.Load.{Config, loaded, decide, load_s3, load_checked, load}
use stocker_informer.Store.{Api, Client, normalize_prefix, new_with_api, build_key}
use stocker_informer.Store.Segments.{build_key-normalized}

decide-same :
    {F : Type 0} (cfg cfg' : Config F) (es : List Error) → decide cfg es ≡ loaded cfg' → cfg' ≡ cfg
unfolding decide
decide-same cfg cfg' [] h = cc
decide-same cfg cfg' (e ∷ es) h = cc

module _ {F : Type 0} (l : Library F) where
  load-path_prefix :
      (cfg : Config F)
      → load l ≡ loaded cfg
      → cfg.s3.path_prefix ≡ normalize_path_prefix (get_env l "S3_PATH_PREFIX" [])
  unfolding load load_checked load_s3
  load-path_prefix cfg h =
      ap (λ c. c.s3.path_prefix) (decide-same (load_checked l).0 cfg (load_checked l).1 h)

  module _ {W : Type 0} (contexts : Contexts W) where
    new-prefix :
        (s3 : S3Config) (api : Api contexts) (c : Client contexts)
        → new_with_api contexts (some s3) (some api) ≡ ok c
        → c.prefix ≡ normalize_prefix s3.path_prefix
    unfolding new_with_api
    new-prefix s3 api c h = cc

    -- Where Load accepts the environment, the client that is made of its configuration has a
    -- prefix with which BuildKey does, for every exchange and symbol, what it does with
    -- S3_PATH_PREFIX as it stands in the environment: the same key, or the same error. Normalising
    -- it twice on the way neither moves an object nor hides a ".." from the check.
    pub load-build_key :
        (cfg : Config F) (api : Api contexts) (c : Client contexts) (exchange symbol : Text)
        → load l ≡ loaded cfg
        → new_with_api contexts (some cfg.s3) (some api) ≡ ok c
        → build_key l.table c.prefix exchange symbol
          ≡ build_key l.table (get_env l "S3_PATH_PREFIX" []) exchange symbol
    load-build_key cfg api c exchange symbol h k =
        rw (new-prefix cfg.s3 api c k, load-path_prefix cfg h)
          (build_key-normalized l.table (get_env l "S3_PATH_PREFIX" []) exchange symbol)
