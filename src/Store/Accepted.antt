-- ===== src/Store/Accepted.antt =====
-- Which requests BuildKey of internal/summarystore/store.go accepts, and the keys that it makes.
use stocker_informer.Base.{
  ℕ, ◌≡◌, ◌≢◌, ◌↔◌, refl, sym, ◌∙◌, ap, inl, inr, true, false, List, [], ◌∷◌, ◌++◌, Text,
  Bool-cases, is_empty, arith, ==_iff,
}
use stocker_informer.Errors.{ok}
use stocker_informer.Text.{CaseTable, trim_space, join, has_prefix, contains}
use stocker_informer.Text.Split.{Lacks}
use stocker_informer.Text.Contains.{Free, Free-trim_space}
use stocker_informer.Store.{slash, dots, object_key, build_key}
use stocker_informer.Store.Prefix.{segments}
use stocker_informer.Store.Segments.{segments-trim_space, Free-of_trimmed}
use stocker_informer.Store.Spelling.{IsPath, IsPath-iff}
use stocker_informer.Store.Key.{
  IsName, identity_segments, object_key-join, Free-Lacks, build_key_accepts,
}

-- A text has another one in it.
abbrev pub Occurs : Text → Text → Type 0
Occurs sub s = (front back : Text) × (s ≡ front ++ (sub ++ back))

has_prefix-splits : (s sub : Text) → has_prefix s sub ≡ true → (back : Text) × (s ≡ sub ++ back)
unfolding has_prefix
has_prefix-splits s [] h = (s, refl)
has_prefix-splits [] (d ∷ sub) h = cc
has_prefix-splits (c ∷ s) (d ∷ sub) h =
    let (same, rest) : (c ≡ d) × (has_prefix s sub ≡ true) = ground arith in
    let (back, e) = has_prefix-splits s sub rest in (back, cc)

has_prefix-append : (sub back : Text) → has_prefix (sub ++ back) sub ≡ true
unfolding has_prefix
has_prefix-append [] back = unfold has_prefix in refl
has_prefix-append (d ∷ sub) back = rw ((==_iff d d).1 refl, has_prefix-append sub back) refl

contains-Occurs : (s sub : Text) → contains s sub ≡ true → Occurs sub s
unfolding contains
contains-Occurs [] sub h = let (back, e) = has_prefix-splits [] sub h in ([], back, e)
contains-Occurs (c ∷ s) sub h = elim (Bool-cases (has_prefix (c ∷ s) sub)) [
  | inl e ↦ let (back, same) = has_prefix-splits (c ∷ s) sub e in ([], back, same)
  | inr e ↦
      let (front, back, same) = contains-Occurs s sub (ground arith) in
      (c ∷ front, back, ap (λ t. c ∷ t) same)
]

contains-front : (front t sub : Text) → has_prefix t sub ≡ true → contains (front ++ t) sub ≡ true
unfolding contains
contains-front [] [] sub h = h
contains-front [] (c ∷ t) sub h = ground arith
contains-front (c ∷ front) t sub h = ground (arith, contains-front front t sub h)

Free-iff : (s sub : Text) → Free sub s ↔ (Occurs sub s → ⊥)
Free-iff s sub = (
  λ h (front, back, e). cc (
    h,
    ap (λ t. contains t sub) e,
    contains-front front (sub ++ back) sub (has_prefix-append sub back),
  ),
  λ h. elim (Bool-cases (contains s sub)) [
    | inl e ↦ absurd (h (contains-Occurs s sub e))
    | inr e ↦ e
  ],
)

Lacks-Free : (s : Text) (c : ℕ) → Lacks c s → Free (c ∷ []) s
unfolding contains has_prefix
Lacks-Free [] c h = refl
Lacks-Free (d ∷ s) c h = ground (arith, h.0, Lacks-Free s c h.1)

-- What BuildKey asks of an exchange or a symbol, once trimmed: it is not empty, and holds no slash
-- and no "..".
pub record IsIdentity (s : Text) : Type 0 where
  pub filled : s ≢ []
  pub whole : Lacks slash s
  pub dotless : Occurs dots s → ⊥

is_empty-false_iff : (s : Text) → (is_empty s ≡ false) ↔ (s ≢ [])
is_empty-false_iff [] = (λ h. cc, λ h. absurd (h refl))
is_empty-false_iff (c ∷ s) = (λ h e. cc, λ h. refl)

IsName-IsIdentity : (s : Text) → IsName s → IsIdentity s
IsName-IsIdentity s n = record {
  filled = (is_empty-false_iff s).0 n.filled;
  whole = Free-Lacks s slash n.whole;
  dotless = (Free-iff s dots).0 n.dotless;
}

IsIdentity-IsName : (s : Text) → IsIdentity s → IsName s
IsIdentity-IsName s i = record {
  filled = (is_empty-false_iff s).1 i.filled;
  whole = Lacks-Free s slash i.whole;
  dotless = (Free-iff s dots).1 i.dotless;
}

module _ (table : CaseTable) (prefix exchange symbol key : Text) where
  -- The key of a request: the segments that the prefix spells, the exchange, the symbol and
  -- summary.md, with a slash between any two of them.
  abbrev pub IsKey : Type 0
  IsKey =
      (ps : List Text) × IsPath prefix ps
      × (key ≡ join (ps ++ identity_segments table (trim_space exchange) (trim_space symbol)) slash)

  object_key-path :
      (ps : List Text)
      → IsPath prefix ps
      → object_key table (trim_space prefix) (trim_space exchange) (trim_space symbol)
        ≡ join (ps ++ identity_segments table (trim_space exchange) (trim_space symbol)) slash
  object_key-path ps path =
      object_key-join table (trim_space prefix) (trim_space exchange) (trim_space symbol)
      ∙ ap
          (λ qs.
            join (qs ++ identity_segments table (trim_space exchange) (trim_space symbol)) slash)
          (segments-trim_space prefix ∙ (IsPath-iff prefix ps).0 path)

  -- BuildKey returns a key exactly for an exchange and a symbol that are, once trimmed, not empty
  -- and hold no slash and no "..", and for a prefix that does not hold ".." either. The key is made
  -- of the segments that the prefix spells, of the exchange and the symbol in upper case, and of
  -- summary.md, in that order and with a slash between any two of them.
  pub build_key-ok_iff : (build_key table prefix exchange symbol ≡ ok key) ↔ (
      IsIdentity (trim_space exchange)
      × IsIdentity (trim_space symbol)
      × (Occurs dots prefix → ⊥)
      × IsKey)
  build_key-ok_iff =
      let (there, back) = build_key_accepts table prefix exchange symbol key in
      (
        λ h.
            let (e, s, free, same) = there h in
            let path = (IsPath-iff prefix (segments prefix)).1 refl in
            (
              IsName-IsIdentity _ e,
              IsName-IsIdentity _ s,
              (Free-iff prefix dots).0 (Free-of_trimmed prefix free),
              (segments prefix, path, same ∙ object_key-path (segments prefix) path),
            ),
        λ (e, s, free, (ps, path, same)). back (
          IsIdentity-IsName _ e,
          IsIdentity-IsName _ s,
          Free-trim_space prefix dots ((Free-iff prefix dots).1 free),
          same ∙ sym (object_key-path ps path),
        ),
      )
