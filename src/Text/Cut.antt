-- ===== src/Text/Cut.antt =====
-- The functions of Go's package strings that cut a text at a separator, and strconv.Atoi.
pub mod Laws
use stocker_informer.Base.{
  ℕ, zero, suc, ◌+◌, ◌-◌, ◌*◌, ◌^◌, ◌||◌, ◌&&◌, Bool, true, false, List, [], ◌∷◌, Option, none,
  some, Text, length, ltb, leb, ◌==◌, if◌then◌else◌,
}
use stocker_informer.Int.{ℤ, pos, negsuc}
use stocker_informer.Text.{has_prefix}

abbrev pub cons_before : ℕ → Option (Text × Text) → Option (Text × Text)
cons_before c none = none
cons_before c (some (before, after)) = some (c ∷ before, after)

-- strings.Cut at a separator of one rune
unfoldable pub cut : Text → ℕ → Option (Text × Text)
cut [] sep = none
cut (c ∷ s) sep = let rest = cut s sep in if c == sep then some ([], s) else cons_before c rest

abbrev drop : ℕ → Text → Text
drop zero s = s
drop (suc n) [] = []
drop (suc n) (c ∷ s) = drop n s

-- What strings.Cut gives as the text after a separator that is not empty.
unfoldable pub after_first : Text → Text → Option Text
after_first [] sep = none
after_first (c ∷ s) sep =
    let rest = after_first s sep in
    if has_prefix (c ∷ s) sep then some (drop (length sep) (c ∷ s)) else rest

abbrev pub is_one_of : Text → ℕ → Bool
is_one_of [] c = false
is_one_of (d ∷ cutset) c = d == c || is_one_of cutset c

-- s[:strings.IndexAny(s, cutset)], and s itself where there is no such index
unfoldable pub until_any : Text → Text → Text
until_any [] cutset = []
until_any (c ∷ s) cutset =
    let rest = until_any s cutset in if is_one_of cutset c then [] else c ∷ rest

abbrev pub or_text : Option Text → Option Text → Option Text
or_text none b = b
or_text (some a) b = some a

-- s[strings.LastIndex(s, sep)+1:], if there is such an index
unfoldable pub after_last : Text → ℕ → Option Text
after_last [] sep = none
after_last (c ∷ s) sep = or_text (after_last s sep) (if c == sep then some s else none)

-- strings.Count of a rune
unfoldable pub count : Text → ℕ → ℕ
count [] sep = 0
count (c ∷ s) sep = (if c == sep then 1 else 0) + count s sep

-- strings.TrimPrefix of one rune
unfoldable pub trim_prefix : Text → ℕ → Text
trim_prefix [] prefix = []
trim_prefix (c ∷ s) prefix = if c == prefix then s else c ∷ s

-- The decimal number whose first digits have a value, if there are only digits to come.
unfoldable pub digits_from : ℕ → Text → Option ℕ
digits_from value [] = some value
digits_from value (c ∷ s) =
    let rest = digits_from (value * 10 + (c - b'0')) s in
    if leb b'0' c && leb c b'9' then rest else none

unfoldable pub digits : Text → Option ℕ
unfolding digits_from
digits [] = none
digits (c ∷ s) = digits_from 0 (c ∷ s)

abbrev pub positive_int : Option ℕ → Option ℤ
positive_int none = none
positive_int (some n) = if ltb n (2 ^ 63) then some (pos n) else none

abbrev pub negative_int : Option ℕ → Option ℤ
negative_int none = none
negative_int (some zero) = some (pos 0)
negative_int (some (suc n)) = if ltb n (2 ^ 63) then some (negsuc n) else none

-- strconv.Atoi: no result for a text that is no number, or none of 64 bits.
unfoldable pub atoi : Text → Option ℤ
unfolding digits
atoi [] = none
atoi (c ∷ s) =
    if c == b'-'
    then negative_int (digits s)
    else if c == b'+'
    then positive_int (digits s)
    else positive_int (digits (c ∷ s))
