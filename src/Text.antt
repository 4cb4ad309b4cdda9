-- ===== src/Text.antt =====
-- The functions of Go's packages strings and unicode that the program calls, over sequences of
-- runes.
pub mod Trim
pub mod Split
pub mod Margins
pub mod Contains
pub mod Found
pub mod Case
pub mod Cut
use stocker_informer.Base.{
  ℕ, suc, ◌+◌, ◌-◌, ◌<◌, ◌≤◌, ◌≡◌, ◌⊎◌, Bool, true, false, ◌&&◌, ◌||◌, not, List, [], ◌∷◌, ◌++◌,
  map, Option, none, some, ltb, leb, ◌==◌, if◌then◌else◌, Text,
}

-- unicode.IsSpace
unfoldable pub is_space : ℕ → Bool
is_space c =
    (leb 9 c && leb c 13)
    || c == 32
    || c == 0x85
    || c == 0xa0
    || c == 0x1680
    || (leb 0x2000 c && leb c 0x200a)
    || c == 0x2028
    || c == 0x2029
    || c == 0x202f
    || c == 0x205f
    || c == 0x3000

module _ (p : ℕ → Bool) where
  -- strings.TrimLeftFunc
  unfoldable pub drop_while : Text → Text
  drop_while [] = []
  drop_while (c ∷ s) = let rest = drop_while s in if p c then rest else c ∷ s

  abbrev pub push_kept : ℕ → Text → Text
  push_kept c [] = if p c then [] else c ∷ []
  push_kept c (d ∷ s) = c ∷ d ∷ s

  -- strings.TrimRightFunc
  unfoldable pub drop_while_end : Text → Text
  drop_while_end [] = []
  drop_while_end (c ∷ s) = push_kept c (drop_while_end s)

-- strings.TrimSpace
unfoldable pub trim_space : Text → Text
trim_space s = drop_while_end is_space (drop_while is_space s)

-- strings.TrimRight with a cutset of one rune
unfoldable pub trim_right : Text → ℕ → Text
trim_right s cut = drop_while_end (λ c. c == cut) s

-- strings.HasPrefix
unfoldable pub has_prefix : Text → Text → Bool
has_prefix s [] = true
has_prefix [] (d ∷ t) = false
has_prefix (c ∷ s) (d ∷ t) = c == d && has_prefix s t

-- strings.Contains
unfoldable pub contains : Text → Text → Bool
unfolding has_prefix
contains [] sub = has_prefix [] sub
contains (c ∷ s) sub = has_prefix (c ∷ s) sub || contains s sub

abbrev pub cons_head : ℕ → List Text → List Text
cons_head c [] = (c ∷ []) ∷ []
cons_head c (p ∷ ps) = (c ∷ p) ∷ ps

-- strings.Split at a separator of one rune
unfoldable pub split : Text → ℕ → List Text
split [] sep = [] ∷ []
split (c ∷ s) sep = let rest = split s sep in if c == sep then [] ∷ rest else cons_head c rest

-- strings.Join with a separator of one rune
unfoldable pub join : List Text → ℕ → Text
join [] sep = []
join (p ∷ []) sep = p
join (p ∷ q ∷ ps) sep = p ++ sep ∷ join (q ∷ ps) sep

-- The case mappings of package unicode beyond ASCII: a table of the standard library that is not
-- spelled out here. What the program relies on is that a mapping of a wide rune is a wide rune or
-- an ASCII letter (as for the dotless i), and so never a separator or a dot.
abbrev pub IsWideOrLetter : ℕ → Type 0
IsWideOrLetter r = (128 ≤ r) ⊎ ((b'A' ≤ r) × (r ≤ b'Z')) ⊎ ((b'a' ≤ r) × (r ≤ b'z'))

pub record CaseTable : Type 0 where
  pub upper : ℕ → ℕ
  pub lower : ℕ → ℕ
  pub upper_lands : (r : ℕ) → 128 ≤ r → IsWideOrLetter (upper r)
  pub lower_lands : (r : ℕ) → 128 ≤ r → IsWideOrLetter (lower r)

module _ (table : CaseTable) where
  open table use {upper, lower}

  -- unicode.ToUpper
  unfoldable pub rune_upper : ℕ → ℕ
  rune_upper r = if ltb r 128 then (if leb b'a' r && leb r b'z' then r - 32 else r) else upper r

  -- unicode.ToLower
  unfoldable pub rune_lower : ℕ → ℕ
  rune_lower r = if ltb r 128 then (if leb b'A' r && leb r b'Z' then r + 32 else r) else lower r

  -- strings.ToUpper
  unfoldable pub to_upper : Text → Text
  to_upper = map rune_upper

  -- strings.ToLower
  unfoldable pub to_lower : Text → Text
  to_lower = map rune_lower

-- len(s): the bytes of a rune's UTF-8 encoding.
unfoldable pub rune_bytes : ℕ → ℕ
rune_bytes r =
    if ltb r 0x80
    then 1
    else if ltb r 0x800
    then 2
    else if ltb r 0x10000
    then 3
    else if ltb r 0x110000
    then 4
    else 1

unfoldable pub byte_len : Text → ℕ
unfolding rune_bytes
byte_len [] = 0
byte_len (c ∷ s) = rune_bytes c + byte_len s
