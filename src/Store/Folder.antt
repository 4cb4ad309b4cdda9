-- ===== src/Store/Folder.antt =====
-- The prefixes of internal/summarystore/store.go up to their spelling: a folder is what the prefixes
-- that spell the same segments share.
use mathlib.Core.Quot
use mathlib.Core.Quot.{Quot, Quot-set}
use mathlib.Core.List
use native.Mathlib.Nat.{ℕ_set}
use stocker_informer.Base.{◌↔◌, List, ◌≡◌, refl, sym, ◌∙◌, ap, Option, none, some, Text}
use stocker_informer.Errors.{Result, ok, err}
use stocker_informer.Text.{CaseTable, trim_space, to_upper}
use stocker_informer.Store.Key.{build_key-injective}
use mathlib.Core.Option.{some-injective}
use stocker_informer.Store.{normalize_prefix, build_key}
use stocker_informer.Store.Spelling.{IsPath, IsPath-iff}
use stocker_informer.Store.Prefix.{segments, segments-normalize_prefix, normalize_prefix_idem}
use stocker_informer.Store.Segments.{normalize_prefix_of_segments, build_key_of_segments}

-- Prefixes that spell the same segments.
abbrev pub SameFolder : Text → Text → Type 0
SameFolder s t = (ps : List Text) → IsPath s ps ↔ IsPath t ps

SameFolder-of_segments : (s t : Text) → segments s ≡ segments t → SameFolder s t
SameFolder-of_segments s t h ps = (
  λ path. (IsPath-iff t ps).1 (sym h ∙ (IsPath-iff s ps).0 path),
  λ path. (IsPath-iff s ps).1 (h ∙ (IsPath-iff t ps).0 path),
)

pub segments_of_SameFolder : (s t : Text) → SameFolder s t → segments s ≡ segments t
segments_of_SameFolder s t h =
    sym ((IsPath-iff t (segments s)).0 ((h (segments s)).0 ((IsPath-iff s (segments s)).1 refl)))

abbrev pub Folder : Type 0
Folder = Quot SameFolder

abbrev pub folder : Text → Folder
folder = Quot.mk

-- The normal form of the prefixes of a folder.
abbrev pub canonical : Folder → Text
canonical =
    Quot.lift (List.is_set ℕ_set) normalize_prefix
      (λ s t h. normalize_prefix_of_segments s t (segments_of_SameFolder s t h))

folder-of_canonical : (d : Folder) → folder (canonical d) ≡ d
folder-of_canonical =
    Quot.ind (λ d. Quot-set _ _)
      (λ prefix. Quot.sound (SameFolder-of_segments _ prefix (segments-normalize_prefix prefix)))

normalize-canonical : (d : Folder) → normalize_prefix (canonical d) ≡ canonical d
normalize-canonical = Quot.ind (λ d. List.is_set ℕ_set _ _) normalize_prefix_idem

SameFolder-of_folder : (s t : Text) → folder s ≡ folder t → SameFolder s t
SameFolder-of_folder s t h = SameFolder-of_segments s t (
    sym (segments-normalize_prefix s)
    ∙ ap (λ d. segments (canonical d)) h
    ∙ segments-normalize_prefix t)

folder_iff : (s t : Text) → (folder s ≡ folder t) ↔ SameFolder s t
folder_iff s t = (SameFolder-of_folder s t, λ h. Quot.sound h)

-- The key, if there is one.
abbrev pub key_of : Result Text → Option Text
key_of (ok key) = some key
key_of (err e) = none

module _ (table : CaseTable) where
  -- BuildKey on folders.
  abbrev pub key_in : Text → Text → Folder → Option Text
  key_in exchange symbol =
      Quot.lift (hlevel) (λ prefix. key_of (build_key table prefix exchange symbol))
        (λ s t h.
          ap key_of
            (build_key_of_segments table s t exchange symbol (segments_of_SameFolder s t h)))

  key_in-canonical :
      (exchange symbol : Text) (d : Folder)
      → key_in exchange symbol d ≡ key_of (build_key table (canonical d) exchange symbol)
  key_in-canonical exchange symbol =
      Quot.ind (λ d. hlevel)
        (λ prefix. ap key_of (
          build_key_of_segments table prefix (normalize_prefix prefix) exchange symbol
            (sym (segments-normalize_prefix prefix))))

  -- Prefixes are one folder exactly if they spell the same segments. A folder is found again from
  -- the normal form of its prefixes, which normalizePrefix leaves as it is and which spells the
  -- segments that they spell; and BuildKey with that prefix gives the keys that it gives with any other
  -- prefix of the folder, and gives none where it gives none.
  pub folder-canonical :
      (d : Folder)
      → ((s t : Text) → (folder s ≡ folder t) ↔ SameFolder s t)
        × (folder (canonical d) ≡ d)
        × (normalize_prefix (canonical d) ≡ canonical d)
        × ((prefix : Text) (ps : List Text)
            → folder prefix ≡ d
            → IsPath prefix ps ↔ (IsPath (canonical d) ps))
        × ((exchange symbol : Text)
            → key_in exchange symbol d ≡ key_of (build_key table (canonical d) exchange symbol))
  folder-canonical d = (
    folder_iff,
    folder-of_canonical d,
    normalize-canonical d,
    λ prefix ps h. SameFolder-of_folder prefix (canonical d) (h ∙ sym (folder-of_canonical d)) ps,
    λ exchange symbol. key_in-canonical exchange symbol d,
  )

  key_of-ok : (r : Result Text) (key : Text) → key_of r ≡ some key → r ≡ ok key
  key_of-ok (ok k) key h = ap ok (some-injective _ _ h)
  key_of-ok (err e) key h = cc

  -- A key tells what was asked for: two requests that give the same key name the same folder, and
  -- the same exchange and symbol up to their case and the white space around them.
  pub key_in-injective :
      (d d' : Folder) (exchange symbol exchange' symbol' key : Text)
      → key_in exchange symbol d ≡ some key
      → key_in exchange' symbol' d' ≡ some key
      → (d ≡ d')
        × (to_upper table (trim_space exchange) ≡ to_upper table (trim_space exchange'))
        × (to_upper table (trim_space symbol) ≡ to_upper table (trim_space symbol'))
  key_in-injective d d' exchange symbol exchange' symbol' key h h' =
      let (same, exchanges, symbols) =
        build_key-injective table (canonical d) exchange symbol (canonical d') exchange' symbol' key
          (key_of-ok _ key (sym (key_in-canonical exchange symbol d) ∙ h))
          (key_of-ok _ key (sym (key_in-canonical exchange' symbol' d') ∙ h')) in
      (
        sym (folder-of_canonical d)
            ∙ Quot.sound (SameFolder-of_segments _ _ same)
            ∙ folder-of_canonical d',
        exchanges,
        symbols,
      )
