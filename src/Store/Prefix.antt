-- ===== src/Store/Prefix.antt =====
-- What normalizePrefix of internal/summarystore/store.go returns.
use mathlib.Core.List.{cons-ne-nil}
use stocker_informer.Base.{
  ◌≡◌, refl, inl, inr, false, List, [], ◌∷◌, Text, All, Bool-cases, is_empty, ap,
}
use stocker_informer.Text.{trim_space, split, join, drop_while, drop_while_end}
use stocker_informer.Text.Trim.{trim_space_idem, All-trim_space}
use stocker_informer.Text.Split.{Lacks, split-join, split-Lacks}
use stocker_informer.Text.Contains.{Free, Free-trim_space, Free-split}
use stocker_informer.Store.{slash, dots, kept_segments, normalize_prefix}

-- A part of a normalised prefix: trimmed, not empty, with no slash.
pub record IsSegment (p : Text) : Type 0 where
  pub filled : is_empty p ≡ false
  pub trimmed : trim_space p ≡ p
  pub whole : Lacks slash p

pub kept_segments-IsSegment :
    (parts : List Text) → All (Lacks slash) parts → All IsSegment (kept_segments parts)
unfolding kept_segments
kept_segments-IsSegment [] h = tt
kept_segments-IsSegment (part ∷ parts) h = elim (Bool-cases (is_empty (trim_space part))) [
  | inl e ↦ rw e (kept_segments-IsSegment parts h.1)
  | inr e ↦ rw e (
    record { filled = e; trimmed = trim_space_idem part; whole = All-trim_space _ part h.0 },
    kept_segments-IsSegment parts h.1,
  )
]

kept_segments_of_IsSegment : (ps : List Text) → All IsSegment ps → kept_segments ps ≡ ps
unfolding kept_segments
kept_segments_of_IsSegment [] h = refl
kept_segments_of_IsSegment (p ∷ ps) h =
    rw (h.0.trimmed) (rw (h.0.filled) (ap (λ qs. p ∷ qs) (kept_segments_of_IsSegment ps h.1)))

pub All-whole : (ps : List Text) → All IsSegment ps → All (Lacks slash) ps
All-whole [] h = tt
All-whole (p ∷ ps) h = (h.0.whole, All-whole ps h.1)

-- The segments of a prefix.
abbrev pub segments : Text → List Text
segments prefix = kept_segments (split prefix slash)

pub segments-IsSegment : (prefix : Text) → All IsSegment (segments prefix)
segments-IsSegment prefix = kept_segments-IsSegment _ (split-Lacks prefix slash)

segments-join : (ps : List Text) → All IsSegment ps → segments (join ps slash) ≡ ps
segments-join [] h = unfold join split kept_segments trim_space drop_while drop_while_end in refl
segments-join (p ∷ ps) h =
    rw (split-join (p ∷ ps) slash (cons-ne-nil p ps) (All-whole (p ∷ ps) h))
      (kept_segments_of_IsSegment (p ∷ ps) h)

-- Normalising does not change the segments.
pub segments-normalize_prefix :
    (prefix : Text) → segments (normalize_prefix prefix) ≡ segments prefix
unfolding normalize_prefix
segments-normalize_prefix prefix = segments-join (segments prefix) (segments-IsSegment prefix)

-- Normalising a normalised prefix changes nothing.
pub normalize_prefix_idem :
    (prefix : Text) → normalize_prefix (normalize_prefix prefix) ≡ normalize_prefix prefix
normalize_prefix_idem prefix =
    unfold normalize_prefix in ap (λ ps. join ps slash) (segments-normalize_prefix prefix)

-- A normalised prefix is empty exactly when it has no segment.
pub is_empty-join_segments :
    (p : Text) (ps : List Text) → All IsSegment (p ∷ ps) → is_empty (join (p ∷ ps) slash) ≡ false
unfolding join
is_empty-join_segments [] ps h = cc (h.0.filled)
is_empty-join_segments (c ∷ p) [] h = refl
is_empty-join_segments (c ∷ p) (q ∷ ps) h = refl

kept_segments-Free :
    (parts : List Text) → All (Free dots) parts → All (Free dots) (kept_segments parts)
unfolding kept_segments
kept_segments-Free [] h = tt
kept_segments-Free (part ∷ parts) h = elim (Bool-cases (is_empty (trim_space part))) [
  | inl e ↦ rw e (kept_segments-Free parts h.1)
  | inr e ↦ rw e (Free-trim_space part dots h.0, kept_segments-Free parts h.1)
]

-- No segment of a prefix without ".." contains "..".
pub segments-Free : (prefix : Text) → Free dots prefix → All (Free dots) (segments prefix)
segments-Free prefix h = kept_segments-Free _ (Free-split prefix slash dots h)
