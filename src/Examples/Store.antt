-- ===== src/Examples/Store.antt =====
-- The summary store and its keys.
use mathlib.Core.Option.{some-injective}
use stocker_informer.Base.{
  List, subst, arith, if◌then◌else◌, ◌≡◌, ◌↔◌, ◌++◌, refl, Bool, true, false, [], ◌∷◌, none, some,
  Text, codes, All, ◌*◌,
}
use stocker_informer.Int.{pos, second}
use stocker_informer.Errors.{Error, canceled, no_such_key, is_summary_not_found, ok, err}
use stocker_informer.Text.{
  is_space, drop_while, drop_while_end, trim_space, has_prefix, contains, split, join, to_upper,
  rune_upper,
}
use stocker_informer.Text.Contains.{Free}
use stocker_informer.Store.{
  slash, dots, normalize_prefix, build_key, Client, failed, get, read_summary,
}
use stocker_informer.Store.Prefix.{segments}
use stocker_informer.Store.Folder.{
  Folder, SameFolder, folder, canonical, key_of, key_in, folder-canonical,
}
use stocker_informer.Store.Key.{identity_segments, build_key-segments, build_key-injective}
use stocker_informer.Store.Spelling.{IsPath}
use stocker_informer.Store.Accepted.{IsIdentity, Occurs, IsKey, build_key-ok_iff}
use stocker_informer.Store.Read.{IsOutside, IsForeign, Reports, answer, read_summary-Reports}
use stocker_informer.Examples.World.{World, contexts, plain_case, start}

text : Unit {0}
unfolding is_space drop_while drop_while_end trim_space has_prefix contains split join to_upper
    rune_upper
text = tt

abbrev key : Text
key = codes "a/b/NYSE/ABC/summary.md"

the_key : build_key plain_case (codes " /a//b ") (codes "nyse ") (codes "abc") ≡ ok key
unfolding build_key normalize_prefix text
the_key = refl

the_same_key : build_key plain_case (codes "a/b/") (codes "NYSE") (codes " Abc") ≡ ok key
unfolding build_key normalize_prefix text
the_same_key = refl

abbrev the_folder : Folder
the_folder = folder (codes " /a//b ")

folder-canonical_example :
    ((s t : Text) → (folder s ≡ folder t) ↔ SameFolder s t)
    × (folder (canonical the_folder) ≡ the_folder)
    × (normalize_prefix (canonical the_folder) ≡ canonical the_folder)
    × ((prefix : Text) (ps : List Text)
        → folder prefix ≡ the_folder
        → IsPath prefix ps ↔ IsPath (canonical the_folder) ps)
    × ((exchange symbol : Text)
        → key_in plain_case exchange symbol the_folder
          ≡ key_of (build_key plain_case (canonical the_folder) exchange symbol))
folder-canonical_example = folder-canonical plain_case the_folder

build_key-ok_iff_example :
    (build_key plain_case (codes " /a//b ") (codes "nyse ") (codes "abc") ≡ ok key) ↔ (
      IsIdentity (trim_space (codes "nyse "))
      × IsIdentity (trim_space (codes "abc"))
      × (Occurs dots (codes " /a//b ") → ⊥)
      × IsKey plain_case (codes " /a//b ") (codes "nyse ") (codes "abc") key)
build_key-ok_iff_example =
    build_key-ok_iff plain_case (codes " /a//b ") (codes "nyse ") (codes "abc") key

build_key-segments_example :
    (split key slash
      ≡ segments (trim_space (codes " /a//b "))
        ++ identity_segments plain_case (trim_space (codes "nyse ")) (trim_space (codes "abc")))
    × All (Free dots) (split key slash)
    × (has_prefix key (slash ∷ []) ≡ false)
build_key-segments_example =
    build_key-segments plain_case (codes " /a//b ") (codes "nyse ") (codes "abc") key the_key

build_key-injective_example :
    (segments (codes " /a//b ") ≡ segments (codes "a/b/"))
    × (to_upper plain_case (trim_space (codes "nyse "))
        ≡ to_upper plain_case (trim_space (codes "NYSE")))
    × (to_upper plain_case (trim_space (codes "abc"))
        ≡ to_upper plain_case (trim_space (codes " Abc")))
build_key-injective_example =
    build_key-injective plain_case (codes " /a//b ") (codes "nyse ") (codes "abc") (codes "a/b/")
      (codes "NYSE") (codes " Abc") key the_key the_same_key

abbrev client : Client contexts
client = record {
  api = λ ctx bucket name w. (failed no_such_key, w);
  bucket = codes "summaries";
  prefix = codes "a/b";
  timeout = pos (10 * second);
}

IsForeign-of_over :
    (over : Bool) {e : Error} → (if over then some canceled else none) ≡ some e → IsForeign e
unfolding is_summary_not_found
IsForeign-of_over true h = subst (λ e. is_summary_not_found e ≡ false) (some-injective _ _ h) refl
IsForeign-of_over false h = cc

IsForeign-of_get :
    (ctx : Unit {0}) (name : Text) (w : World) {e : Error}
    → (get contexts client ctx name w).0 ≡ err e
    → IsForeign e
unfolding get is_summary_not_found
IsForeign-of_get ctx name w h = ground arith

outside : IsOutside contexts client
outside = record {
  ctx_foreign = λ ctx w h. IsForeign-of_over w.over h;
  get_foreign = λ ctx name w h. IsForeign-of_get ctx name w h;
}

read_summary-Reports_example :
    ((name : Text)
      → build_key plain_case client.prefix (codes "nyse") (codes "abc") ≡ ok name
      → Reports contexts
          (answer contexts client tt name start)
          (read_summary contexts plain_case client tt (codes "nyse") (codes "abc") start).0)
    × ((e : Error)
        → build_key plain_case client.prefix (codes "nyse") (codes "abc") ≡ err e
        → (read_summary contexts plain_case client tt (codes "nyse") (codes "abc") start
            ≡ (err e, start))
          × IsForeign e)
read_summary-Reports_example =
    read_summary-Reports contexts plain_case client outside tt (codes "nyse") (codes "abc") start
