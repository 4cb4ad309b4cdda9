-- ===== src/Store/Spelling.antt =====
-- How a prefix of internal/summarystore/store.go spells its segments.
use stocker_informer.Base.{
  ◌≡◌, ◌≢◌, ◌↔◌, refl, sym, ◌∙◌, ap, inl, inr, true, List, [], ◌∷◌, ◌++◌, Text, All, Bool-cases,
  is_empty, subst,
}
use stocker_informer.Text.{is_space, drop_while, push_kept, drop_while_end, trim_space, split, join}
use stocker_informer.Text.Trim.{
  drop_while_end_rest, trim_space_idem, trim_space-nil_iff, All-trim_space,
}
use stocker_informer.Text.Split.{Lacks, join-split, split-join, split-ne-nil, split-Lacks}
use stocker_informer.Text.Margins.{trim_space-space, trim_space-trim_end}
use stocker_informer.Store.{slash, kept_segments}
use stocker_informer.Store.Prefix.{IsSegment, segments}

abbrev pub Blank : Text → Type 0
Blank = All (λ c. is_space c ≡ true)

-- What is between the slashes spells the segments: a part may be blank, and a segment may have
-- white space around it.
pub data Spells : List Text → List Text → Type 0 where
  nothing : Spells [] []
  blank :
      {part : Text} {parts ps : List Text} → Blank part → Spells parts ps → Spells (part ∷ parts) ps
  named :
      {part p : Text} {parts ps : List Text} (front back : Text)
      → Blank front
      → Blank back
      → part ≡ front ++ (p ++ back)
      → IsSegment p
      → Spells parts ps
      → Spells (part ∷ parts) (p ∷ ps)

-- The prefix is made of parts with a slash between any two of them, which spell the segments `ps`.
pub record IsPath (prefix : Text) (ps : List Text) : Type 0 where
  pub parts : List Text
  pub filled : parts ≢ []
  pub whole : All (Lacks slash) parts
  pub joined : prefix ≡ join parts slash
  pub spelled : Spells parts ps

trim_space-append_front : (front s : Text) → Blank front → trim_space (front ++ s) ≡ trim_space s
trim_space-append_front [] s h = refl
trim_space-append_front (c ∷ front) s h =
    trim_space-space c (front ++ s) h.0 ∙ trim_space-append_front front s h.1

trim_end-Blank : (back : Text) → Blank back → drop_while_end is_space back ≡ []
unfolding drop_while_end
trim_end-Blank [] h = refl
trim_end-Blank (c ∷ back) h = rw (trim_end-Blank back h.1, h.0) refl

trim_end-append :
    (s back : Text) → Blank back → drop_while_end is_space (s ++ back) ≡ drop_while_end is_space s
unfolding drop_while_end
trim_end-append [] back h = trim_end-Blank back h
trim_end-append (c ∷ s) back h = ap (push_kept is_space c) (trim_end-append s back h)

trim_space-append_back : (s back : Text) → Blank back → trim_space (s ++ back) ≡ trim_space s
trim_space-append_back s back h =
    sym (trim_space-trim_end (s ++ back))
    ∙ ap trim_space (trim_end-append s back h)
    ∙ trim_space-trim_end s

-- What is trimmed away at the front.
drop_while_rest : (s : Text) → (front : Text) × Blank front × (s ≡ front ++ drop_while is_space s)
unfolding drop_while
drop_while_rest [] = ([], tt, refl)
drop_while_rest (c ∷ s) = elim (Bool-cases (is_space c)) [
  | inl e ↦
      let (front, h, same) = drop_while_rest s in rw e (c ∷ front, (e, h), ap (λ t. c ∷ t) same)
  | inr e ↦ rw e ([], tt, refl)
]

trim_space_rest :
    (s : Text)
    → (front back : Text) × Blank front × Blank back × (s ≡ front ++ (trim_space s ++ back))
unfolding trim_space
trim_space_rest s =
    let (front, h, same) = drop_while_rest s in
    let (back, same', h') = drop_while_end_rest is_space (drop_while is_space s) in
    (front, back, h, h', same ∙ ap (λ t. front ++ t) same')

kept_segments-Spells :
    (parts : List Text) → All (Lacks slash) parts → Spells parts (kept_segments parts)
unfolding kept_segments
kept_segments-Spells [] h = nothing
kept_segments-Spells (part ∷ parts) h = elim (Bool-cases (is_empty (trim_space part))) [
  | inl e ↦ rw e (
      blank ((trim_space-nil_iff part).0 (empty (trim_space part) e))
        (kept_segments-Spells parts h.1))
  | inr e ↦
      let (front, back, f, b, same) = trim_space_rest part in
      rw e (
        named front back f b same
          (record { filled = e; trimmed = trim_space_idem part; whole = All-trim_space _ part h.0 })
          (kept_segments-Spells parts h.1))
]
  where
    empty : (t : Text) → is_empty t ≡ true → t ≡ []
    empty [] q = refl
    empty (c ∷ t) q = cc

Spells-kept_segments : {parts ps : List Text} → Spells parts ps → kept_segments parts ≡ ps
unfolding kept_segments
Spells-kept_segments nothing = refl
Spells-kept_segments (blank {part} h rest) =
    rw ((trim_space-nil_iff part).1 h) (Spells-kept_segments rest)
Spells-kept_segments (named {part} {p} front back f b same seg rest) =
    let trimmed : trim_space part ≡ p =
      ap trim_space same
      ∙ trim_space-append_front front (p ++ back) f
      ∙ trim_space-append_back p back b
      ∙ seg.trimmed in
    rw trimmed (rw (seg.filled) (ap (λ qs. p ∷ qs) (Spells-kept_segments rest)))

-- The segments that the code keeps are those that the prefix spells, and no others.
pub IsPath-iff : (prefix : Text) (ps : List Text) → IsPath prefix ps ↔ (segments prefix ≡ ps)
IsPath-iff prefix ps = (
  λ path.
      ap segments path.joined
      ∙ ap kept_segments (split-join path.parts slash path.filled path.whole)
      ∙ Spells-kept_segments path.spelled,
  λ h. record {
    parts = split prefix slash;
    filled = split-ne-nil prefix slash;
    whole = split-Lacks prefix slash;
    joined = sym (join-split prefix slash);
    spelled =
        subst (Spells (split prefix slash)) h
          (kept_segments-Spells (split prefix slash) (split-Lacks prefix slash));
  },
)
