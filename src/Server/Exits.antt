-- ===== src/Server/Exits.antt =====
-- How `run` and `main` of cmd/server/main.go end.
use Prim.Native.String.{String}
use stocker_informer.Base.{◌≡◌, List, [], none, some}
use stocker_informer.Errors.{Error, wrapped, ok, err}
use stocker_informer.Contexts.{Contexts}
use stocker_informer.Effects.{Event}
use stocker_informer.Effects.Laws.{effects}
use stocker_informer.Effects.Quiet.{IsOpen}
use stocker_informer.Config.Load.{Config, loaded, invalid_configuration, load}
use stocker_informer.Store
use stocker_informer.Consumer.Supervisor
use stocker_informer.Build.{new_store}
use stocker_informer.Server.{Exit, load_failed, returned, running, Platform}

module _ {W : Type 0} (contexts : Contexts W) (F : Type 0) where
  open contexts use {Ctx}

  -- How the program ended, and what it did.
  pub data Exits (p : Platform contexts F) (exit : Exit) (es : List Event) : Type 0 where
    misconfigured :
        (problems : List Error)
        → load p.library ≡ invalid_configuration problems
        → exit ≡ load_failed problems
        → effects es ≡ []
        → Exits p exit es
    storeless :
        (cfg : Config F)
        → load p.library ≡ loaded cfg
        → (e : Error) → new_store contexts p.aws (some cfg.s3) ≡ err e
        → exit ≡ returned (some (wrapped "create summary store: %w" [] e))
        → effects es ≡ []
        → Exits p exit es
    serving :
        (cfg : Config F)
        → load p.library ≡ loaded cfg
        → (store : Store.Client contexts) → new_store contexts p.aws (some cfg.s3) ≡ ok store
        → exit ≡ running
        → Exits p exit es
    stopped :
        (cfg : Config F)
        → load p.library ≡ loaded cfg
        → (store : Store.Client contexts) → new_store contexts p.aws (some cfg.s3) ≡ ok store
        → exit ≡ returned none
        → IsOpen 0 es
        → Exits p exit es

  -- What `serve` ends with.
  abbrev Served : Exit → List Event → Type 0
  Served (load_failed problems) es = ⊥
  Served (returned (some e)) es = ⊥
  Served (returned none) es = IsOpen 0 es
  Served running es = Unit
