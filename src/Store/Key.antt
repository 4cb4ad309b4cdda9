-- ===== src/Store/Key.antt =====
-- What BuildKey of internal/summarystore/store.go accepts, and the keys that it returns.
use Prim.Native.String.{String}
use mathlib.Core.List.{cons-ne-nil}
use stocker_informer.Base.{
  ℕ, ◌≡◌, ◌≢◌, ◌↔◌, refl, sym, ◌∙◌, false, List, [], ◌∷◌, ◌++◌, arith, Text, All, All-append,
  is_empty, append_assoc, codes, none,
}
use stocker_informer.Errors.{ok}
use stocker_informer.Text.{CaseTable, trim_space, split, join, contains, has_prefix, to_upper}
use stocker_informer.Text.Split.{Lacks, split-join}
use stocker_informer.Text.Contains.{Free}
use stocker_informer.Text.Case.{to_upper-Lacks, to_upper-Free}
use stocker_informer.Store.{
  slash, dots, normalize_prefix, check_segment, object_key, checked_key, build_key,
}
use stocker_informer.Store.Segments.{segments-trim_space}
use stocker_informer.Store.Prefix.{
  IsSegment, All-whole, segments, segments-IsSegment, segments-Free, is_empty-join_segments,
}

join-append :
    (p : Text) (ps : List Text) (q : Text) (qs : List Text) (sep : ℕ)
    → join ((p ∷ ps) ++ q ∷ qs) sep ≡ join (p ∷ ps) sep ++ sep ∷ join (q ∷ qs) sep
unfolding join
join-append p [] q qs sep = refl
join-append p (p' ∷ ps) q qs sep = rw (join-append p' ps q qs sep) (sym (append_assoc p _ _))

pub Free-Lacks : (s : Text) (c : ℕ) → Free (c ∷ []) s → Lacks c s
unfolding contains has_prefix
Free-Lacks [] c h = tt
Free-Lacks (d ∷ s) c h = (ground arith, Free-Lacks s c (ground arith))

append-cons-ne-nil : (ps : List Text) (q : Text) (qs : List Text) → ps ++ q ∷ qs ≢ []
append-cons-ne-nil [] q qs = cons-ne-nil q qs
append-cons-ne-nil (p ∷ ps) q qs = cons-ne-nil p _

same_parts :
    (ps qs : List Text) (a b a' b' c : Text)
    → ps ++ a ∷ b ∷ c ∷ [] ≡ qs ++ a' ∷ b' ∷ c ∷ []
    → (ps ≡ qs) × (a ≡ a') × (b ≡ b')
same_parts [] [] a b a' b' c h = (refl, cc, cc)
same_parts [] (q ∷ []) a b a' b' c h = cc
same_parts [] (q ∷ q' ∷ []) a b a' b' c h = cc
same_parts [] (q ∷ q' ∷ q'' ∷ []) a b a' b' c h = cc
same_parts [] (q ∷ q' ∷ q'' ∷ r ∷ qs) a b a' b' c h = cc
same_parts (p ∷ []) [] a b a' b' c h = cc
same_parts (p ∷ p' ∷ []) [] a b a' b' c h = cc
same_parts (p ∷ p' ∷ p'' ∷ []) [] a b a' b' c h = cc
same_parts (p ∷ p' ∷ p'' ∷ r ∷ ps) [] a b a' b' c h = cc
same_parts (p ∷ ps) (q ∷ qs) a b a' b' c h =
    let (same, a_same, b_same) = same_parts ps qs a b a' b' c (cc) in (cc, a_same, b_same)

join-relative :
    (q : Text) (qs : List Text)
    → is_empty q ≡ false
    → Lacks slash q
    → has_prefix (join (q ∷ qs) slash) (slash ∷ []) ≡ false
unfolding join has_prefix
join-relative [] qs h k = cc
join-relative (c ∷ q) [] h k = ground (arith, k.0)
join-relative (c ∷ q) (q' ∷ qs) h k = ground (arith, k.0)

-- What BuildKey asks of an exchange or a symbol, once trimmed.
pub record IsName (s : Text) : Type 0 where
  pub filled : is_empty s ≡ false
  pub whole : Free (slash ∷ []) s
  pub dotless : Free dots s

module _ (table : CaseTable) where
  -- The last three segments of a key.
  abbrev pub identity_segments : Text → Text → List Text
  identity_segments exchange symbol =
      to_upper table exchange ∷ to_upper table symbol ∷ codes "summary.md" ∷ []

  identity_segments-Lacks :
      (exchange symbol : Text)
      → IsName exchange
      → IsName symbol
      → All (Lacks slash) (identity_segments exchange symbol)
  identity_segments-Lacks exchange symbol e s = (
    to_upper-Lacks table exchange slash (omega arith) (Free-Lacks exchange slash e.whole),
    (
      to_upper-Lacks table symbol slash (omega arith) (Free-Lacks symbol slash s.whole),
      omega arith,
    ),
  )

  identity_segments-Free :
      (exchange symbol : Text)
      → IsName exchange
      → IsName symbol
      → All (Free dots) (identity_segments exchange symbol)
  identity_segments-Free exchange symbol e s = (
    to_upper-Free table exchange dots (omega arith) e.dotless,
    (to_upper-Free table symbol dots (omega arith) s.dotless, (unfold contains in refl, tt)),
  )

  pub object_key-join :
      (prefix exchange symbol : Text)
      → object_key table prefix exchange symbol
        ≡ join (segments prefix ++ identity_segments exchange symbol) slash
  object_key-join prefix exchange symbol = go (segments prefix) (segments-IsSegment prefix) refl
    where
      go :
          (ps : List Text)
          → All IsSegment ps
          → segments prefix ≡ ps
          → object_key table prefix exchange symbol
            ≡ join (ps ++ identity_segments exchange symbol) slash
      go [] h e = unfold object_key normalize_prefix in rw e (unfold join in refl)
      go (p ∷ ps) h e =
          unfold object_key normalize_prefix join in
          rw e (rw (is_empty-join_segments p ps h) (sym (join-append p ps _ _ slash)))

  check_segment-none_iff :
      (name : String) (s : Text)
      → (check_segment name s ≡ none) ↔ (Free (slash ∷ []) s × Free dots s)
  unfolding check_segment
  check_segment-none_iff name s = ground arith

  checked_key-ok_iff :
      (prefix exchange symbol key : Text)
      → (checked_key table prefix exchange symbol ≡ ok key) ↔ (
          IsName exchange
          × IsName symbol
          × Free dots prefix
          × (key ≡ object_key table prefix exchange symbol))
  unfolding checked_key
  checked_key-ok_iff prefix exchange symbol key = ground arith

  pub build_key_accepts :
      (prefix exchange symbol key : Text)
      → (build_key table prefix exchange symbol ≡ ok key) ↔ (
          IsName (trim_space exchange)
          × IsName (trim_space symbol)
          × Free dots (trim_space prefix)
          × (key ≡ object_key table (trim_space prefix) (trim_space exchange) (trim_space symbol)))
  unfolding build_key
  build_key_accepts prefix exchange symbol key = checked_key-ok_iff _ _ _ key

  key_segments :
      (prefix exchange symbol key : Text)
      → build_key table prefix exchange symbol ≡ ok key
      → (split key slash
          ≡ segments (trim_space prefix)
            ++ identity_segments (trim_space exchange) (trim_space symbol))
        × All (Free dots) (split key slash)
  key_segments prefix exchange symbol key h =
      let (e, s, p, same) = (build_key_accepts prefix exchange symbol key).0 h in
      let parts : split key slash
          ≡ segments (trim_space prefix)
            ++ identity_segments (trim_space exchange) (trim_space symbol) =
        rw (same, object_key-join)
          (split-join _ slash (append-cons-ne-nil (segments (trim_space prefix)) _ _) (
            All-append _ _ _ (All-whole _ (segments-IsSegment (trim_space prefix)))
              (identity_segments-Lacks _ _ e s))) in
      (parts, rw parts (All-append _ _ _ (segments-Free _ p) (identity_segments-Free _ _ e s)))

  -- Whatever the prefixes, two identities that share a key have the same upper-cased names, and
  -- their prefixes have the same segments.
  pub build_key-injective :
      (prefix exchange symbol prefix' exchange' symbol' key : Text)
      → build_key table prefix exchange symbol ≡ ok key
      → build_key table prefix' exchange' symbol' ≡ ok key
      → (segments prefix ≡ segments prefix')
        × (to_upper table (trim_space exchange) ≡ to_upper table (trim_space exchange'))
        × (to_upper table (trim_space symbol) ≡ to_upper table (trim_space symbol'))
  build_key-injective prefix exchange symbol prefix' exchange' symbol' key h h' =
      let (same, exchanges, symbols) =
        same_parts (segments (trim_space prefix)) (segments (trim_space prefix')) _ _ _ _ _ (
          sym (key_segments prefix exchange symbol key h).0
          ∙ (key_segments prefix' exchange' symbol' key h').0) in
      (sym (segments-trim_space prefix) ∙ same ∙ segments-trim_space prefix', exchanges, symbols)

  is_empty-to_upper : (s : Text) → is_empty (to_upper table s) ≡ is_empty s
  unfolding to_upper
  is_empty-to_upper [] = refl
  is_empty-to_upper (c ∷ s) = refl

  relative_parts :
      (ps : List Text)
      → All IsSegment ps
      → (exchange symbol : Text) → IsName exchange
      → has_prefix (join (ps ++ identity_segments exchange symbol) slash) (slash ∷ []) ≡ false
  relative_parts [] h exchange symbol e =
      join-relative _ _ (is_empty-to_upper exchange ∙ e.filled)
        (to_upper-Lacks table exchange slash (omega arith) (Free-Lacks exchange slash e.whole))
  relative_parts (p ∷ ps) h exchange symbol e = join-relative p _ h.0.filled h.0.whole

  -- The segments of a key: those of the prefix, then the upper-cased exchange and symbol, then
  -- summary.md; none of them contains "..", and the key does not begin with a slash.
  pub build_key-segments :
      (prefix exchange symbol key : Text)
      → build_key table prefix exchange symbol ≡ ok key
      → (split key slash
          ≡ segments (trim_space prefix)
            ++ identity_segments (trim_space exchange) (trim_space symbol))
        × All (Free dots) (split key slash)
        × (has_prefix key (slash ∷ []) ≡ false)
  build_key-segments prefix exchange symbol key h =
      let (e, s, p, same) = (build_key_accepts prefix exchange symbol key).0 h in
      let (parts, free) = key_segments prefix exchange symbol key h in
      (
        parts,
        free,
        rw (same, object_key-join)
            (relative_parts (segments (trim_space prefix)) (segments-IsSegment (trim_space prefix))
              _ _ e),
      )
