-- ===== src/Health.antt =====
-- cmd/server/main.go: the /health handler and its readiness flag.
use Prim.Native.String.{String}
use stocker_informer.Base.{ℕ, Bool, true, false, List, [], ◌∷◌, ◌++◌, Text, codes}
use stocker_informer.Effects.{Event, became_ready}

pub record Response : Type 0 where
  pub status : ℕ
  pub content_type : String
  pub body : Text

-- The atomic flag: false at first, and set by each call of the readiness callback.
unfoldable pub ready_after : Bool → List Event → Bool
ready_after flag [] = flag
ready_after flag (became_ready ∷ es) = ready_after true es
ready_after flag (e ∷ es) = ready_after flag es

-- The handler of /health, given the version.
unfoldable pub health : Text → Bool → Response
health version true = record {
  status = 200;
  content_type = "application/json";
  body = codes "{\"status\":\"ok\",\"version\":\"" ++ (version ++ codes "\"}\n");
}
health version false = record {
  status = 503;
  content_type = "application/json";
  body = codes "{\"status\":\"starting\",\"version\":\"" ++ (version ++ codes "\"}\n");
}
