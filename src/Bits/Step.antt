-- ===== src/Bits/Step.antt =====
-- The bit operations, one binary digit at a time. Each native operation stands for a recursion
-- `digits` that carries fuel; a surplus of fuel changes nothing, so it can be dropped.
use Prim.Native.Nat.{
  min, max, differ, digits, bitwise, bit_and-bitwise, bit_or-bitwise, bit_xor-bitwise,
}
use usbmux_tool.Base.{
  ℕ, zero, suc, ◌+◌, ◌*◌, ◌/◌, ◌%◌, ◌≤◌, ◌<◌, bit_and, bit_or, bit_xor, ◌≡◌, refl, ◌∙◌, ap, arith,
  ltb, Bool-cases, inl, inr,
}

-- An operation that `digits` gives, from a function for a first argument of 0 and one for a digit.
module _ (on_zero : ℕ → ℕ) (digit : ℕ → ℕ → ℕ) where
  one_more : (n a b : ℕ) → a ≤ n → digits on_zero digit (suc n) a b ≡ digits on_zero digit n a b
  one_more zero zero b h = refl
  one_more zero (suc a) b h = absurd (omega arith)
  one_more (suc n) zero b h = refl
  one_more (suc n) (suc a) b h = rw (one_more n (suc a / 2) (b / 2) (omega arith)) refl

  surplus : (m n a b : ℕ) → n ≤ m → a ≤ n → digits on_zero digit m a b ≡ digits on_zero digit n a b
  surplus zero zero a b p q = refl
  surplus zero (suc n) a b p q = absurd (omega arith)
  surplus (suc m) n a b p q = elim (Bool-cases (ltb m n)) [
    | inl all ↦
        let whole : suc m ≡ n = ground arith in ap (λ (k : ℕ). digits on_zero digit k a b) whole
    | inr less ↦ one_more m a b (ground arith) ∙ surplus m n a b (ground arith) q
  ]

  module _ (op : ℕ → ℕ → ℕ) (means : (a b : ℕ) → op a b ≡ bitwise on_zero digit a b)
      (base : (b : ℕ) → on_zero b ≡ on_zero (b / 2) * 2 + digit 0 (b % 2)) where
    last_digit : (a b : ℕ) → op a b ≡ op (a / 2) (b / 2) * 2 + digit (a % 2) (b % 2)
    last_digit zero b = omega (arith, means 0 b, means 0 (b / 2), base b)
    last_digit (suc a) b = omega (
      arith,
      means (suc a) b,
      means (suc a / 2) (b / 2),
      surplus a (suc a / 2) (suc a / 2) (b / 2) (omega arith) (omega arith),
    )

pub bit_xor_step : (a b : ℕ) → bit_xor a b ≡ bit_xor (a / 2) (b / 2) * 2 + differ (a % 2) (b % 2)
bit_xor_step = last_digit (λ b. b) differ bit_xor bit_xor-bitwise (λ b. omega arith)

pub bit_and_step : (a b : ℕ) → bit_and a b ≡ bit_and (a / 2) (b / 2) * 2 + min (a % 2) (b % 2)
bit_and_step = last_digit (λ b. 0) min bit_and bit_and-bitwise (λ b. omega arith)

pub bit_or_step : (a b : ℕ) → bit_or a b ≡ bit_or (a / 2) (b / 2) * 2 + max (a % 2) (b % 2)
bit_or_step = last_digit (λ b. b) max bit_or bit_or-bitwise (λ b. omega arith)

-- Two digits that are taken twice cancel.
differ_cancel : (a b : ℕ) → a < 2 → b < 2 → differ (differ a b) b ≡ a
differ_cancel zero zero p q = refl
differ_cancel zero (suc zero) p q = refl
differ_cancel (suc zero) zero p q = refl
differ_cancel (suc zero) (suc zero) p q = refl
differ_cancel (suc (suc a)) b p q = absurd (omega arith)
differ_cancel zero (suc (suc b)) p q = absurd (omega arith)
differ_cancel (suc zero) (suc (suc b)) p q = absurd (omega arith)

pub differ-lt : (a b : ℕ) → differ (a % 2) (b % 2) < 2
differ-lt a b = digit (a % 2) (b % 2) (omega arith) (omega arith)
  where
    digit : (a b : ℕ) → a < 2 → b < 2 → differ a b < 2
    digit zero b p q = q
    digit (suc a) zero p q = p
    digit (suc zero) (suc zero) p q = omega arith
    digit (suc zero) (suc (suc b)) p q = absurd (omega arith)
    digit (suc (suc a)) (suc b) p q = absurd (omega arith)

pub differ-mod_cancel : (a b : ℕ) → differ (differ (a % 2) (b % 2)) (b % 2) ≡ a % 2
differ-mod_cancel a b = differ_cancel (a % 2) (b % 2) (omega arith) (omega arith)

pub differ_comm : (a b : ℕ) → differ a b ≡ differ b a
differ_comm zero zero = refl
differ_comm zero (suc b) = refl
differ_comm (suc a) zero = refl
differ_comm (suc a) (suc b) = differ_comm a b
