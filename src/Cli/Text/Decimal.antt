-- ===== src/Cli/Text/Decimal.antt =====
-- Decimal numerals, and that `strtoul` reads them back.
use usbmux_tool.Base.{
  ℕ, zero, suc, ◌+◌, ◌-◌, ◌*◌, ◌/◌, ◌%◌, ◌≤◌, ◌<◌, Bool-cases, inl, inr, none, some, List, [], ◌∷◌,
  ◌++◌, subst, ==_false, refl, ap, ◌∙◌, ◌≡◌, ltb, ltb-true, leb-true, if◌then◌else◌, arith,
}
use usbmux_tool.Cli.Text.{digit_value, read_digits, read_hex, read_plain, read_number}

-- The numeral of a number, on fuel.
unfoldable pub numeral : ℕ → ℕ → List ℕ
numeral zero n = []
numeral (suc fuel) n =
    let front = numeral fuel (n / 10) in
    if ltb n 10 then (48 + n) ∷ [] else front ++ (48 + n % 10) ∷ []

-- The fuel is enough: a number has no more digits than one more than itself.
unfoldable pub decimal : ℕ → List ℕ
unfolding numeral
decimal n = numeral (suc n) n

abbrev AllDigits : List ℕ → Type 0
AllDigits [] = Unit
AllDigits (c ∷ s) = (48 ≤ c) × (c ≤ 57) × AllDigits s

abbrev value : ℕ → List ℕ → ℕ
value v [] = v
value v (c ∷ s) = value (v * 10 + (c - 48)) s

AllDigits-append : (s : List ℕ) (c : ℕ) → AllDigits s → 48 ≤ c → c ≤ 57 → AllDigits (s ++ c ∷ [])
AllDigits-append [] c h low high = (low, high, tt)
AllDigits-append (d ∷ s) c (a, b, h) low high = (a, b, AllDigits-append s c h low high)

value-append : (v : ℕ) (s : List ℕ) (c : ℕ) → value v (s ++ c ∷ []) ≡ value v s * 10 + (c - 48)
value-append v [] c = refl
value-append v (d ∷ s) c = value-append (v * 10 + (d - 48)) s c

digit_value_lem : (c : ℕ) → 48 ≤ c → c ≤ 57 → digit_value c ≡ c - 48
digit_value_lem c low high = rw (leb-true 48 c low, leb-true c 57 high) refl

-- A run of digits is read to its end.
read_digits_lem : (v : ℕ) (s : List ℕ) → AllDigits s → read_digits 10 v s ≡ (value v s, [])
unfolding read_digits
read_digits_lem v [] h = refl
read_digits_lem v (c ∷ s) (low, high, h) =
    rw
      (
        read_digits,
        digit_value_lem c low high,
        ltb-true (c - 48) 10 (omega arith),
        digit_value_lem c low high,
      )
      (read_digits_lem (v * 10 + (c - 48)) s h)

numeral-AllDigits : (fuel n : ℕ) → n < fuel → AllDigits (numeral fuel n)
unfolding numeral
numeral-AllDigits zero n enough = tt
numeral-AllDigits (suc fuel) n enough = elim (Bool-cases (ltb n 10)) [
  | inl one ↦ rw one ((ground arith), (ground arith), tt)
  | inr more ↦ rw more (
      AllDigits-append (numeral fuel (n / 10)) (48 + n % 10)
        (numeral-AllDigits fuel (n / 10) (ground arith)) (omega arith) (omega arith))
]

value-numeral : (fuel n : ℕ) → n < fuel → value 0 (numeral fuel n) ≡ n
unfolding numeral
value-numeral zero n enough = absurd (omega arith)
value-numeral (suc fuel) n enough = elim (Bool-cases (ltb n 10)) [
  | inl one ↦ rw one (omega arith)
  | inr more ↦ rw more (
      omega (
        arith,
        value-append 0 (numeral fuel (n / 10)) (48 + n % 10),
        value-numeral fuel (n / 10) (ground arith),
      ))
]

-- The first digit of a number above 0 is not 0.
pub record Leading (s : List ℕ) : Type 0 where
  pub first : ℕ
  pub rest : List ℕ
  pub text : s ≡ first ∷ rest
  pub low : 49 ≤ first
  pub high : first ≤ 57

Leading-append : (s : List ℕ) (c : ℕ) → Leading s → Leading (s ++ c ∷ [])
Leading-append s c l = record {
  first = l.first;
  rest = l.rest ++ c ∷ [];
  text = ap (λ (x : List ℕ). x ++ c ∷ []) l.text;
  low = l.low;
  high = l.high;
}

numeral-Leading : (fuel n : ℕ) → 0 < n → n < fuel → Leading (numeral fuel n)
unfolding numeral
numeral-Leading zero n above enough = absurd (omega arith)
numeral-Leading (suc fuel) n above enough = elim (Bool-cases (ltb n 10)) [
  | inl one ↦
      rw one
        (record { first = 48 + n; rest = []; text = refl; low = omega arith; high = ground arith })
  | inr more ↦ rw more (
      Leading-append (numeral fuel (n / 10)) (48 + n % 10)
        (numeral-Leading fuel (n / 10) (ground arith) (ground arith)))
]

pub decimal-Leading : (n : ℕ) → 0 < n → Leading (decimal n)
unfolding decimal
decimal-Leading n above = numeral-Leading (suc n) n above (omega arith)

no_hex : (c : ℕ) (s : List ℕ) → 49 ≤ c → read_hex (c ∷ s) ≡ none
unfolding read_hex
no_hex c [] low = refl
no_hex c (x ∷ []) low = refl
no_hex c (x ∷ d ∷ s) low = rw (==_false c 48 (λ e. absurd (omega (arith, e)))) refl

read_plain_lem :
    (c : ℕ) (s : List ℕ)
    → 49 ≤ c
    → c ≤ 57
    → AllDigits (c ∷ s)
    → read_plain (c ∷ s) ≡ some (value 0 (c ∷ s), [])
unfolding read_plain
read_plain_lem c s low high all =
    rw
      (
        ==_false c 48 (λ e. absurd (omega (arith, e))),
        digit_value_lem c (omega arith) high,
        ltb-true (c - 48) 10 (omega arith),
      )
      (ap some (read_digits_lem 0 (c ∷ s) all))

read_number-Leading : (s : List ℕ) → Leading s → AllDigits s → read_number s ≡ some (value 0 s, [])
unfolding read_number
read_number-Leading s l all = rw (l.text) (
    rw (no_hex l.first l.rest l.low)
      (read_plain_lem l.first l.rest l.low l.high (subst AllDigits l.text all)))

pub read_number-decimal : (n : ℕ) → 0 < n → read_number (decimal n) ≡ some (n, [])
unfolding decimal
read_number-decimal n above =
    read_number-Leading (decimal n) (decimal-Leading n above)
      (numeral-AllDigits (suc n) n (omega arith))
    ∙ ap (λ (v : ℕ). some (v, [])) (value-numeral (suc n) n (omega arith))
