-- ===== src/Cli/Port/Laws.antt =====
-- Which texts are port numbers.
use usbmux_tool.Base.{
  ℕ, ◌-◌, ◌^◌, ◌≤◌, ◌<◌, true, false, Bool-cases, inl, inr, some, none, List, [], ◌∷◌, leb,
  ==_false, ◌==◌, ◌≡◌, refl, if◌then◌else◌, arith,
}
use usbmux_tool.Cli.Text.{read_number, is_space, fit, signed_number, skip_space, strtoul}
use usbmux_tool.Cli.Text.Decimal.{Leading, decimal, decimal-Leading, read_number-decimal}
use usbmux_tool.Cli.Port.{parse_port}

-- A text that begins with a digit has no white space and no sign before it.
strtoul_digit :
    (c n : ℕ) (s : List ℕ)
    → 49 ≤ c
    → c ≤ 57
    → read_number (c ∷ s) ≡ some (n, [])
    → strtoul (c ∷ s) ≡ some (fit false (n, []))
unfolding strtoul skip_space signed_number
strtoul_digit c n s low high read =
    rw
      (
        no_space,
        ==_false c 45 (λ e. absurd (omega (arith, e))),
        ==_false c 43 (λ e. absurd (omega (arith, e))),
        read,
      )
      refl
  where
    no_space : is_space c ≡ false
    no_space = ground arith

strtoul-Leading :
    (s : List ℕ) (n : ℕ)
    → Leading s
    → read_number s ≡ some (n, [])
    → strtoul s ≡ some (fit false (n, []))
strtoul-Leading s n l read =
    rw (l.text) (strtoul_digit l.first n l.rest l.low l.high (rw (← l.text) read))

zero_port : parse_port (decimal 0) ≡ some 0
unfolding parse_port strtoul decimal
zero_port = refl

strtoul_negated :
    (s : List ℕ) (n : ℕ) → read_number s ≡ some (n, []) → strtoul (45 ∷ s) ≡ some (fit true (n, []))
unfolding strtoul skip_space signed_number
strtoul_negated s n read = rw read refl

-- The decimal numeral of a number is the port of that number if it is at most 255, and no port
-- otherwise, however large the number is.
pub parse_port-decimal : (n : ℕ) → parse_port (decimal n) ≡ (if leb n 255 then some n else none)
unfolding parse_port
parse_port-decimal n = elim (Bool-cases (n == 0)) [
  | inl zero_n ↦ let same : n ≡ 0 = ground arith in rw same zero_port
  | inr above ↦
      let positive : 0 < n = ground arith in
      rw
        (strtoul-Leading (decimal n) n (decimal-Leading n positive)
          (read_number-decimal n positive))
        (ground arith)
]

-- A minus sign before the decimal numeral of 2 ^ 64 less a port is read as that port.
pub parse_port_negated : (v : ℕ) → 1 ≤ v → v ≤ 255 → parse_port (45 ∷ decimal (2 ^ 64 - v)) ≡ some v
unfolding parse_port
parse_port_negated v low high =
    rw
      (strtoul_negated (decimal (2 ^ 64 - v)) (2 ^ 64 - v)
        (read_number-decimal (2 ^ 64 - v) (omega arith)))
      (ground arith)
