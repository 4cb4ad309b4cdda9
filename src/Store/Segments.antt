-- ===== src/Store/Segments.antt =====
-- internal/summarystore/store.go and internal/config/config.go: the segments of a prefix, and what
-- BuildKey and the two functions normalizePrefix make of them.
use mathlib.Core.List.{cons-ne-nil}
use stocker_informer.Base.{
  ◌≡◌, refl, sym, ◌∙◌, ap, inl, inr, Bool, true, false, List, [], ◌∷◌, map, Text, All, Bool-cases,
  is_empty, arith, subst,
}
use stocker_informer.Text.{
  CaseTable, is_space, drop_while, drop_while_end, trim_space, split, join, has_prefix, contains,
}
use stocker_informer.Text.Split.{Lacks, split-join, split-Lacks}
use stocker_informer.Text.Contains.{Free}
use stocker_informer.Text.Margins.{split-trim_space}
use stocker_informer.Text.Found.{Free-of_trim_space, Free-of_split}
use stocker_informer.Config.Checks.{kept_parts, normalize_path_prefix}
use stocker_informer.Store.{
  slash, dots, kept_segments, normalize_prefix, object_key, checked_key, build_key,
}
use stocker_informer.Store.Prefix.{segments, segments-Free, segments-normalize_prefix}

-- The loop of the store is that of the configuration on trimmed parts.
kept_segments-map : (ps : List Text) → kept_segments ps ≡ kept_parts (map trim_space ps)
unfolding kept_segments kept_parts
kept_segments-map [] = refl
kept_segments-map (p ∷ ps) = rw (kept_segments-map ps) refl

-- Trimming the whole prefix changes no segment.
pub segments-trim_space : (s : Text) → segments (trim_space s) ≡ segments s
segments-trim_space s =
    kept_segments-map _
    ∙ ap kept_parts (split-trim_space slash (unfold is_space in refl) s)
    ∙ sym (kept_segments-map _)

trim_space-nil : trim_space [] ≡ []
unfolding trim_space drop_while drop_while_end
trim_space-nil = refl

kept_segments-kept_parts : (ps : List Text) → kept_segments (kept_parts ps) ≡ kept_segments ps
unfolding kept_segments kept_parts
kept_segments-kept_parts [] = refl
kept_segments-kept_parts ([] ∷ ps) = rw trim_space-nil (kept_segments-kept_parts ps)
kept_segments-kept_parts ((c ∷ p) ∷ ps) = rw (kept_segments-kept_parts ps) refl

kept_parts-Lacks : (ps : List Text) → All (Lacks slash) ps → All (Lacks slash) (kept_parts ps)
unfolding kept_parts
kept_parts-Lacks [] h = tt
kept_parts-Lacks ([] ∷ ps) h = kept_parts-Lacks ps h.1
kept_parts-Lacks ((c ∷ p) ∷ ps) h = (h.0, kept_parts-Lacks ps h.1)

segments-join_parts :
    (ps : List Text) → All (Lacks slash) ps → segments (join ps slash) ≡ kept_segments ps
segments-join_parts [] h =
    unfold join split kept_segments trim_space drop_while drop_while_end in refl
segments-join_parts (p ∷ ps) h = rw (split-join (p ∷ ps) slash (cons-ne-nil p ps) h) refl

-- The configuration's normalizePrefix changes no segment.
pub segments-normalize_path_prefix :
    (raw : Text) → segments (normalize_path_prefix raw) ≡ segments raw
unfolding normalize_path_prefix
segments-normalize_path_prefix raw =
    let parts = split (trim_space raw) slash in
    segments-join_parts (kept_parts parts) (kept_parts-Lacks parts (split-Lacks _ slash))
    ∙ kept_segments-kept_parts parts
    ∙ segments-trim_space raw

Free-of_empty : (p : Text) → is_empty p ≡ true → Free dots p
Free-of_empty [] h = unfold contains has_prefix in refl
Free-of_empty (c ∷ p) h = cc

pub Free-of_trimmed : (p : Text) → Free dots (trim_space p) → Free dots p
unfolding is_space
Free-of_trimmed = Free-of_trim_space b'.' (b'.' ∷ []) (refl, (refl, tt))

kept_segments-Free_inv : (ps : List Text) → All (Free dots) (kept_segments ps) → All (Free dots) ps
unfolding kept_segments
kept_segments-Free_inv [] = λ h. tt
kept_segments-Free_inv (p ∷ ps) = elim (Bool-cases (is_empty (trim_space p))) [
  | inl e ↦
      rw e (λ h. (Free-of_trimmed p (Free-of_empty (trim_space p) e), kept_segments-Free_inv ps h))
  | inr e ↦ rw e (λ h. (Free-of_trimmed p h.0, kept_segments-Free_inv ps h.1))
]

-- A prefix whose segments are free of ".." is free of it.
Free-of_segments : (s : Text) → All (Free dots) (segments s) → Free dots s
Free-of_segments s h =
    Free-of_split s dots slash (omega arith, (omega arith, tt)) (kept_segments-Free_inv _ h)

same_Bool : (a b : Bool) → (a ≡ false → b ≡ false) → (b ≡ false → a ≡ false) → a ≡ b
same_Bool true true f g = refl
same_Bool true false f g = g refl
same_Bool false true f g = sym (f refl)
same_Bool false false f g = refl

contains_of_segments : (s t : Text) → segments s ≡ segments t → contains s dots ≡ contains t dots
contains_of_segments s t e =
    same_Bool _ _ (λ h. Free-of_segments t (subst (All (Free dots)) e (segments-Free s h)))
      (λ h. Free-of_segments s (subst (All (Free dots)) (sym e) (segments-Free t h)))

pub normalize_prefix_of_segments :
    (s t : Text) → segments s ≡ segments t → normalize_prefix s ≡ normalize_prefix t
normalize_prefix_of_segments s t e = unfold normalize_prefix in ap (λ ps. join ps slash) e

object_key_of_segments :
    (table : CaseTable) (s t exchange symbol : Text)
    → segments s ≡ segments t
    → object_key table s exchange symbol ≡ object_key table t exchange symbol
unfolding object_key
object_key_of_segments table s t exchange symbol h = rw (normalize_prefix_of_segments s t h) refl

checked_key_of :
    (table : CaseTable) (s t exchange symbol : Text)
    → contains s dots ≡ contains t dots
    → object_key table s exchange symbol ≡ object_key table t exchange symbol
    → checked_key table s exchange symbol ≡ checked_key table t exchange symbol
unfolding checked_key
checked_key_of table s t exchange symbol h k = ground arith

-- Prefixes with the same segments give the same keys, and are refused alike.
pub build_key_of_segments :
    (table : CaseTable) (s t exchange symbol : Text)
    → segments s ≡ segments t
    → build_key table s exchange symbol ≡ build_key table t exchange symbol
unfolding build_key
build_key_of_segments table s t exchange symbol h =
    let same : segments (trim_space s) ≡ segments (trim_space t) =
      segments-trim_space s ∙ h ∙ sym (segments-trim_space t) in
    checked_key_of table (trim_space s) (trim_space t) _ _
      (contains_of_segments (trim_space s) (trim_space t) same)
      (object_key_of_segments table (trim_space s) (trim_space t) _ _ same)

-- BuildKey takes a prefix that Load and New have normalised as it takes the prefix itself.
pub build_key-normalized :
    (table : CaseTable) (raw exchange symbol : Text)
    → build_key table (normalize_prefix (normalize_path_prefix raw)) exchange symbol
      ≡ build_key table raw exchange symbol
build_key-normalized table raw exchange symbol =
    build_key_of_segments table _ raw exchange symbol
      (segments-normalize_prefix (normalize_path_prefix raw) ∙ segments-normalize_path_prefix raw)
