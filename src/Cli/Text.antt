-- ===== src/Cli/Text.antt =====
-- What the tool uses of the C library on texts. A C string is the list of its characters without
-- the end mark.
pub mod Decimal
use Prim.Native.Char.{code}
use Prim.Native.String.{String}
use usbmux_tool.Base.{
  ℕ, ◌+◌, ◌-◌, ◌*◌, ◌%◌, ◌^◌, ◌<◌, Bool, true, false, ◌&&◌, ◌||◌, Option, none, some, List, [], ◌∷◌,
  ltb, leb, ◌==◌, if◌then◌else◌,
}

-- The characters of a literal.
abbrev pub codes : String → List ℕ
codes String.[] = []
codes (String.◌∷◌ c s) = code c ∷ codes s

-- `memcmp(a, b, n) == 0` for two buffers of n bytes, and `strcmp(a, b) == 0`
abbrev pub text_eq : List ℕ → List ℕ → Bool
text_eq [] [] = true
text_eq [] (b ∷ bs) = false
text_eq (a ∷ as') [] = false
text_eq (a ∷ as') (b ∷ bs) = a == b && text_eq as' bs

-- `isspace` in the C locale
abbrev pub is_space : ℕ → Bool
is_space c = c == b' ' || leb 9 c && leb c 13

unfoldable pub skip_space : List ℕ → List ℕ
skip_space [] = []
skip_space (c ∷ s) = if is_space c then skip_space s else c ∷ s

-- The value of a character as a digit, 36 for a character that is none.
abbrev pub digit_value : ℕ → ℕ
digit_value c =
    if leb b'0' c && leb c b'9'
    then c - b'0'
    else if leb b'a' c && leb c b'z'
    then c - b'a' + 10
    else if leb b'A' c && leb c b'Z'
    then c - b'A' + 10
    else 36

-- The digits of a base, and what is behind them.
unfoldable pub read_digits : ℕ → ℕ → List ℕ → ℕ × List ℕ
read_digits base value [] = (value, [])
read_digits base value (c ∷ s) = elim (ltb (digit_value c) base) [
  | true ↦ read_digits base (value * base + digit_value c) s
  | false ↦ (value, c ∷ s)
]

-- The unsigned number that a text begins with, in the base that its prefix shows; `none` if there
-- is no digit.
unfoldable pub read_hex : List ℕ → Option (ℕ × List ℕ)
unfolding read_digits
read_hex (z ∷ x ∷ d ∷ s) =
    if z == b'0' && (x == b'x' || x == b'X') && ltb (digit_value d) 16
    then some (read_digits 16 0 (d ∷ s))
    else none
read_hex s = none

unfoldable pub read_plain : List ℕ → Option (ℕ × List ℕ)
unfolding read_digits
read_plain [] = none
read_plain (c ∷ s) =
    if c == b'0'
    then some (read_digits 8 0 (c ∷ s))
    else if ltb (digit_value c) 10
    then some (read_digits 10 0 (c ∷ s))
    else none

abbrev or_else : Option (ℕ × List ℕ) → Option (ℕ × List ℕ) → Option (ℕ × List ℕ)
or_else (some r) other = some r
or_else none other = other

unfoldable pub read_number : List ℕ → Option (ℕ × List ℕ)
unfolding read_hex read_plain
read_number s = or_else (read_hex s) (read_plain s)

-- `strtoul(text, &end, 0)` for the 64-bit `unsigned long`: the value and the text at `end`, or
-- `none` where nothing is converted: then the value is 0 and `end` is `text`. A number that does
-- not fit gives ULONG_MAX; a minus sign negates in the unsigned type.
abbrev pub fit : Bool → ℕ × List ℕ → ℕ × List ℕ
fit negative (v, rest) =
    (if leb (2 ^ 64) v then 2 ^ 64 - 1 else if negative then (2 ^ 64 - v) % 2 ^ 64 else v, rest)

abbrev pub fit_any : Bool → Option (ℕ × List ℕ) → Option (ℕ × List ℕ)
fit_any negative none = none
fit_any negative (some r) = some (fit negative r)

unfoldable pub signed_number : List ℕ → Option (ℕ × List ℕ)
unfolding read_number
signed_number [] = none
signed_number (c ∷ s) =
    if c == b'-'
    then fit_any true (read_number s)
    else if c == b'+'
    then fit_any false (read_number s)
    else fit_any false (read_number (c ∷ s))

unfoldable pub strtoul : List ℕ → Option (ℕ × List ℕ)
unfolding skip_space signed_number
strtoul text = signed_number (skip_space text)

-- `strtoul(text, NULL, 0)`
abbrev pub number_or_zero : Option (ℕ × List ℕ) → ℕ
number_or_zero none = 0
number_or_zero (some (v, rest)) = v
