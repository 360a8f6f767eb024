-- ===== src/Proto/Names/Laws.antt =====
-- A name stands for one number.
use Prim.Native.String.{String}
use text.Mathlib.Text
use usbmux_tool.Base.{
  ℕ, List, [], ◌∷◌, Bool, true, ◌&&◌, Bool-cases, ◌⊎◌, inl, inr, ◌≡◌, ◌≢◌, refl, sym, ap, ◌∙◌,
  arith, ℤ, pos, negsuc, int_eq, ◌==◌, ==_iff, if◌then◌else◌,
}
use usbmux_tool.Proto.Names.{
  switch, result_cases, result_name, device_status_cases, device_status_name,
}

module _ {K : Type 0} (equal : K → K → Bool) (sound : (a b : K) → equal a b ≡ true → a ≡ b) where
  -- The number of a name: the first in the table.
  number_of : String → List (K × String) → K → K
  number_of name [] d = d
  number_of name ((a, x) ∷ cases) d = if Text.◌==◌ x name then a else number_of name cases d

  -- Every name in `cases` leads back to its number in `table`.
  leads_back : List (K × String) → List (K × String) → K → Bool
  unfolding number_of
  leads_back [] table d = true
  leads_back ((a, x) ∷ cases) table d = equal (number_of x table d) a && leads_back cases table d

  switch-number_of :
      (key : K) (cases table : List (K × String)) (otherwise : String) (d : K)
      → leads_back cases table d ≡ true
      → (switch equal key cases otherwise ≡ otherwise)
        ⊎ (number_of (switch equal key cases otherwise) table d ≡ key)
  unfolding switch leads_back
  switch-number_of key [] table otherwise d back = inl refl
  switch-number_of key ((a, x) ∷ cases) table otherwise d back = elim (Bool-cases (equal key a)) [
    | inl here ↦ rw here (inr (sound _ a (ground arith) ∙ sym (sound key a here)))
    | inr further ↦ rw further (switch-number_of key cases table otherwise d (ground arith))
  ]

  switch_injective :
      (a b : K) (table : List (K × String)) (otherwise : String) (d : K)
      → leads_back table table d ≡ true
      → switch equal a table otherwise ≡ switch equal b table otherwise
      → switch equal a table otherwise ≢ otherwise
      → a ≡ b
  switch_injective a b table otherwise d back same known =
      elim (switch-number_of a table table otherwise d back) [
        | inl default_a ↦ absurd (known default_a)
        | inr found_a ↦ elim (switch-number_of b table table otherwise d back) [
          | inl default_b ↦ absurd (known (same ∙ default_b))
          | inr found_b ↦ sym found_a ∙ ap (λ (x : String). number_of x table d) same ∙ found_b
        ]
      ]

-- Two device statuses with one name are equal, unless the name is that of an unknown status.
pub device_status_name_injective :
    (a b : ℕ)
    → device_status_name a ≡ device_status_name b
    → device_status_name a ≢ "ERR_UNKNOWN_DEVICE_STATUS"
    → a ≡ b
unfolding device_status_name switch leads_back
device_status_name_injective a b same known =
    switch_injective ◌==◌ (λ x y. (==_iff x y).0) a b device_status_cases
      "ERR_UNKNOWN_DEVICE_STATUS" 0 refl same known

int_eq_sound : (x y : ℤ) → int_eq x y ≡ true → x ≡ y
int_eq_sound (pos x) (pos y) h = ground arith
int_eq_sound (pos x) (negsuc y) h = cc
int_eq_sound (negsuc x) (pos y) h = cc
int_eq_sound (negsuc x) (negsuc y) h = ground arith

-- Two results with one name are equal, unless the name is that of an unknown result.
pub result_name_injective :
    (a b : ℤ) → result_name a ≡ result_name b → result_name a ≢ "ERR_UNKNOWN" → a ≡ b
unfolding result_name switch leads_back
result_name_injective a b same known =
    switch_injective int_eq int_eq_sound a b result_cases "ERR_UNKNOWN" (pos 0) refl same known
