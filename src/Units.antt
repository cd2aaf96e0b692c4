-- ===== src/Units.antt =====
-- internal/units: sizes in bytes, read and printed, and quotas.
pub mod Pretty
pub mod Decoded
use locaccel.Prelude.{
  ℕ, zero, suc, ◌+◌, ◌*◌, ◌/◌, ◌%◌, ◌^◌, code, String, List, Option, none, some, Bool, true, false,
  not, ◌&&◌, ◌||◌, eqb, ltb, leb, if◌then◌else◌,
}
use locaccel.Prelude.Int.{ℤ, pos, negsuc, ◌*ℤ◌, neg_ℤ, wrap64}
use locaccel.Prelude.Panic.{Run, returns, panics}
use locaccel.Prelude.Text.{◌<+>◌, is_empty, is_digit, atoi}
use locaccel.Prelude.Text.Decimal.{itoa}
use locaccel.Config.{Decimal, DiskQuota}

-- the digits that a text begins with, and what follows them
unfoldable pub span_digits : String → String × String
span_digits String.[] = ("", "")
span_digits (String.◌∷◌ c s) =
    let (digits, rest) = span_digits s in
    if is_digit c then (String.◌∷◌ c digits, rest) else ("", String.◌∷◌ c s)

-- `\s*`
unfoldable pub skip_spaces : String → String
skip_spaces String.[] = ""
skip_spaces (String.◌∷◌ c s) =
    let rest = skip_spaces s in
    if eqb (code c) 9 || eqb (code c) 10 || eqb (code c) 12 || eqb (code c) 13 || eqb (code c) 32
    then rest
    else String.◌∷◌ c s

-- `(\.\d+)?`
abbrev pub fraction : String → String × String
fraction String.[] = ("", "")
fraction (String.◌∷◌ c s) =
    let (digits, rest) = span_digits s in
    if eqb (code c) b'.' && not (is_empty digits)
    then (String.◌∷◌ c digits, rest)
    else ("", String.◌∷◌ c s)

-- the base and the exponent of a unit, of which a prefix has these
abbrev pub exponent_of : ℕ → Option ℕ
exponent_of c =
    if eqb c b'K'
    then some 1
    else if eqb c b'M'
    then some 2
    else if eqb c b'G'
    then some 3
    else if eqb c b'T'
    then some 4
    else none

abbrev pub with_base : ℕ → Option ℕ → Option (ℕ × ℕ)
with_base base none = none
with_base base (some exponent) = some (base, exponent)

abbrev pub is_char : ℕ → String → Bool
is_char n String.[] = false
is_char n (String.◌∷◌ c String.[]) = eqb (code c) n
is_char n (String.◌∷◌ c (String.◌∷◌ d s)) = false

-- `((([KMGT])(i?))?B)?$` and what its groups are read as; a unit that is not there is read as one
-- byte.
unfoldable pub unit_of : String → Option (ℕ × ℕ)
unit_of String.[] = some (1000, 0)
unit_of (String.◌∷◌ c String.[]) = if eqb (code c) b'B' then some (1000, 0) else none
unit_of (String.◌∷◌ c (String.◌∷◌ d String.[])) =
    if eqb (code d) b'B' then with_base 1000 (exponent_of (code c)) else none
unit_of (String.◌∷◌ c (String.◌∷◌ d (String.◌∷◌ e s))) =
    if eqb (code d) b'i' && is_char b'B' (String.◌∷◌ e s)
    then with_base 1024 (exponent_of (code c))
    else none

-- `strconv.ParseFloat`, the product with the multiplier and its conversion to int64, none for an
-- error, are a parameter.
module _ (scaled_float : String → ℕ → Option ℤ) where
  -- An int has 64 bits, and its product wraps. A number with no unit must be an integer.
  abbrev pub scaled : String → Bool → Option (ℕ × ℕ) → Option ℤ
  scaled number bare none = none
  scaled number bare (some (base, exponent)) =
      let (value, ok) = atoi number in
      if ok
      then some (wrap64 (value *ℤ base ^ exponent))
      else if bare
      then none
      else scaled_float number (base ^ exponent)

  -- none is ErrInvalidByteFormat
  unfoldable pub decode_bytes : String → Option ℤ
  unfolding span_digits skip_spaces unit_of
  decode_bytes value =
      let (digits, rest) = span_digits value in
      let (decimals, behind) = fraction rest in
      let unit = skip_spaces behind in
      if is_empty digits then none else scaled (digits <+> decimals) (is_empty unit) (unit_of unit)

-- The loop of `PrettyBytes`, with the rounds left: the quotient is at least the base if the number is
-- at least the next power. A float64 holds the numbers below `1024 ^ 5` and their quotients exactly.
unfoldable pub scale : ℕ → ℕ → ℕ → ℕ
scale zero i b = i
scale (suc k) i b = let rest = scale k (i + 1) b in if leb (1024 ^ (i + 1)) b then rest else i

-- the quotient as `%.2f` rounds it, in hundredths: to the nearest, and to the even one of two
unfoldable pub hundredths : ℕ → ℕ → ℕ
hundredths b m =
    let q = 100 * b / m in
    let r = 100 * b % m in if ltb (2 * r) m then q else if ltb m (2 * r) then q + 1 else q + q % 2

unfoldable pub print_hundredths : ℕ → String
print_hundredths h = itoa (h / 100) <+> "." <+> itoa (h / 10 % 10) <+> itoa (h % 10)

-- `units[i]`, which has five bytes
abbrev pub unit_name : ℕ → Run String
unit_name zero = returns "B"
unit_name (suc zero) = returns "K"
unit_name (suc (suc zero)) = returns "M"
unit_name (suc (suc (suc zero))) = returns "G"
unit_name (suc (suc (suc (suc zero)))) = returns "T"
unit_name (suc (suc (suc (suc (suc i))))) = panics

abbrev pub with_unit : ℕ → ℕ → Run String → Run String
with_unit b i panics = panics
with_unit b i (returns unit) = returns (
    if eqb i 0
    then itoa b <+> "B"
    else print_hundredths (hundredths b (1024 ^ i)) <+> unit <+> "iB")

-- A number below the base is printed as it is, so also a negative one.
unfoldable pub pretty_bytes : ℤ → Run String
unfolding scale hundredths print_hundredths
pretty_bytes (negsuc n) = returns ("-" <+> itoa (n + 1) <+> "B")
pretty_bytes (pos b) = with_unit b (scale 5 0 b) (unit_name (scale 5 0 b))

abbrev product : ℤ → ℤ → ℤ
product a (pos n) = a *ℤ n
product a (negsuc n) = neg_ℤ (a *ℤ (n + 1))

-- `DiskQuota.Bytes`: `syscall.Statfs` gives the number of blocks and their size, or an error.
unfoldable pub quota_bytes : DiskQuota → Option (ℕ × ℤ) → Option ℤ
quota_bytes quota statfs = if eqb quota.percent.digits 0 then some quota.bytes else elim statfs [
  | none ↦ none
  | some (blocks, bsize) ↦ some (wrap64 (product (wrap64 (pos blocks)) bsize))
]

-- getQuota of internal/config/config.go: the directory is made first.
unfoldable pub get_quota : Bool → DiskQuota → Option (ℕ × ℤ) → Option ℤ
unfolding quota_bytes
get_quota made quota statfs = if made then quota_bytes quota statfs else none
