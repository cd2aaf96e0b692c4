-- ===== src/Prelude/Text.antt =====
-- Texts as Go's `strings` and `strconv` treat them. A text is valid UTF-8, walked by characters;
-- every character that these functions look for is ASCII or a Unicode space.
pub mod Split
pub mod Prefix
pub mod Decimal
use Prim.Native.String
use mathlib.Core.Bool.{◌&&◌, ◌||◌}
use locaccel.Prelude.{
  ℕ, ◌+◌, ◌-◌, ◌*◌, ◌^◌, Char, code, String, List, [], ◌∷◌, Option, none, some, Bool, true, false,
  ltb, leb, eqb, if◌then◌else◌,
}
use locaccel.Prelude.Int.{ℤ, pos, negsuc, neg_ℤ}

infixr 65 ◌<+>◌
abbrev pub ◌<+>◌ : String → String → String
s <+> t = String.◌++◌ s t

abbrev pub is_empty : String → Bool
is_empty String.[] = true
is_empty (String.◌∷◌ c s) = false

-- `unicode.IsSpace`
unfoldable pub is_space : Char → Bool
is_space c =
    (leb 9 (code c) && leb (code c) 13)
    || eqb (code c) 0x20
    || eqb (code c) 0x85
    || eqb (code c) 0xA0
    || eqb (code c) 0x1680
    || (leb 0x2000 (code c) && leb (code c) 0x200A)
    || eqb (code c) 0x2028
    || eqb (code c) 0x2029
    || eqb (code c) 0x202F
    || eqb (code c) 0x205F
    || eqb (code c) 0x3000

trim_left : String → String
trim_left String.[] = ""
trim_left (String.◌∷◌ c s) = if is_space c then trim_left s else String.◌∷◌ c s

trim_right : String → String
trim_right String.[] = ""
trim_right (String.◌∷◌ c s) =
    let rest = trim_right s in if is_space c && is_empty rest then "" else String.◌∷◌ c rest

-- `strings.TrimSpace`
unfoldable pub trim_space : String → String
unfolding is_space trim_left trim_right
trim_space s = trim_right (trim_left s)

abbrev pub add_to_first : Char → List String → List String
add_to_first c [] = String.◌∷◌ c "" ∷ []
add_to_first c (part ∷ parts) = String.◌∷◌ c part ∷ parts

-- `strings.SplitSeq` with a separator of one character, given by its code
unfoldable pub split_seq : ℕ → String → List String
split_seq sep String.[] = "" ∷ []
split_seq sep (String.◌∷◌ c s) =
    let parts = split_seq sep s in if eqb (code c) sep then "" ∷ parts else add_to_first c parts

-- `strings.Cut` with a separator of one character: what stands before it, and what stands after it
-- if it is there
unfoldable pub cut : ℕ → String → String × Option String
cut sep String.[] = ("", none)
cut sep (String.◌∷◌ c s) =
    let (before, after) = cut sep s in
    if eqb (code c) sep then ("", some s) else (String.◌∷◌ c before, after)

-- `strings.Join`
unfoldable pub join : String → List String → String
join sep [] = ""
join sep (s ∷ []) = s
join sep (s ∷ t ∷ rest) = s <+> sep <+> join sep (t ∷ rest)

-- `strings.CutPrefix`
unfoldable pub cut_prefix : String → String → Option String
cut_prefix String.[] s = some s
cut_prefix (String.◌∷◌ c p) String.[] = none
cut_prefix (String.◌∷◌ c p) (String.◌∷◌ d s) =
    let rest = cut_prefix p s in if eqb (code c) (code d) then rest else none

-- `strings.HasPrefix`, the prefix first
unfoldable pub has_prefix : String → String → Bool
unfolding cut_prefix
has_prefix p s = elim (cut_prefix p s) [ none ↦ false | some _ ↦ true ]

abbrev pub is_digit : Char → Bool
is_digit c = leb b'0' (code c) && leb (code c) b'9'

-- What `strconv.ParseUint` makes of a text: it stops at the first character that is no digit, and
-- at the first digit with which the number leaves the 64 bits.
pub data Scanned : Type 0 where
  invalid too_big : Scanned
  number : ℕ → Scanned

unfoldable pub scan_digits : String → ℕ → Scanned
scan_digits String.[] n = number n
scan_digits (String.◌∷◌ c s) n =
    let m = n * 10 + (code c - b'0') in
    let rest = scan_digits s m in
    if is_digit c then if ltb m (2 ^ 64) then rest else too_big else invalid

-- one digit or more
unfoldable pub scan_number : String → Scanned
unfolding scan_digits
scan_number String.[] = invalid
scan_number (String.◌∷◌ c s) = scan_digits (String.◌∷◌ c s) 0

-- the int64, and whether there is no error; out of range it is the nearest one
abbrev pub non_negative : Scanned → ℤ × Bool
non_negative invalid = (pos 0, false)
non_negative too_big = (pos (2 ^ 63 - 1), false)
non_negative (number n) = if ltb n (2 ^ 63) then (pos n, true) else (pos (2 ^ 63 - 1), false)

abbrev pub non_positive : Scanned → ℤ × Bool
non_positive invalid = (pos 0, false)
non_positive too_big = (negsuc (2 ^ 63 - 1), false)
non_positive (number n) =
    if leb n (2 ^ 63) then (neg_ℤ (pos n), true) else (negsuc (2 ^ 63 - 1), false)

-- `strconv.Atoi` where an int has 64 bits: an optional sign and digits. The value is returned beside
-- the error too.
unfoldable pub atoi : String → ℤ × Bool
unfolding scan_number
atoi String.[] = (pos 0, false)
atoi (String.◌∷◌ c s) =
    if eqb (code c) b'-'
    then non_positive (scan_number s)
    else non_negative (scan_number (if eqb (code c) b'+' then s else String.◌∷◌ c s))
