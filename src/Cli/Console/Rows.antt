-- ===== src/Cli/Console/Rows.antt =====
-- `dump_hex` prints rows of 16 bytes.
use Prim.Native.String.{String}
use usbmux_tool.Base.{
  ℕ, zero, suc, ◌+◌, ◌*◌, ◌%◌, ◌<◌, ◌≡◌, refl, ap, ◌∙◌, arith, List, [], ◌∷◌, ◌++◌, length, take,
  drop, length-drop, ==_true, ==_false,
}
use usbmux_tool.Cli.Console.{Printed, fprintf, stdout, number, name, newline, dump_bytes, dump_hex}

-- The bytes of a row, and rows with their offsets, on fuel.
pub row : List ℕ → List Printed
row [] = []
row (b ∷ bytes) = fprintf stdout " %02X" (number b ∷ []) ∷ row bytes

unfoldable pub rows : ℕ → ℕ → List ℕ → List Printed
unfolding row
rows zero k bytes = []
rows (suc fuel) k [] = []
rows (suc fuel) k (b ∷ bytes) =
    fprintf stdout "\n  %04zu:" (number (k * 16) ∷ [])
    ∷ (row (take 16 (b ∷ bytes)) ++ rows fuel (k + 1) (drop 16 (b ∷ bytes)))

-- Inside a row, `room` bytes before its end.
inside_row :
    (room i : ℕ) (bytes : List ℕ)
    → (i + room) % 16 ≡ 0
    → room < 16
    → dump_bytes i bytes ≡ row (take room bytes) ++ dump_bytes (i + room) (drop room bytes)
unfolding dump_bytes row
inside_row zero i bytes at short = ap (λ (n : ℕ). dump_bytes n bytes) (omega arith)
inside_row (suc room) i [] at short = refl
inside_row (suc room) i (b ∷ bytes) at short =
    rw (==_false (i % 16) 0 (λ e. absurd (omega (arith, e, at, short)))) (
      ap (λ (rest : List Printed). fprintf stdout " %02X" (number b ∷ []) ∷ rest)
        (inside_row room (i + 1) bytes (omega arith) (omega arith)
          ∙ ap (λ (n : ℕ). row (take room bytes) ++ dump_bytes n (drop room bytes)) (omega arith)))

dump_bytes-rows :
    (fuel k : ℕ) (bytes : List ℕ)
    → length bytes < fuel
    → dump_bytes (k * 16) bytes ≡ rows fuel k bytes
unfolding dump_bytes rows row
dump_bytes-rows zero k bytes enough = absurd (omega arith)
dump_bytes-rows (suc fuel) k [] enough = refl
dump_bytes-rows (suc fuel) k (b ∷ bytes) enough = rw (==_true (k * 16 % 16) 0 (omega arith)) (
    ap
      (λ (rest : List Printed).
        fprintf stdout "\n  %04zu:" (number (k * 16) ∷ [])
        ∷ fprintf stdout " %02X" (number b ∷ [])
        ∷ rest)
      (inside_row 15 (k * 16 + 1) bytes (omega arith) (omega arith)
        ∙ ap (λ (n : ℕ). row (take 15 bytes) ++ dump_bytes n (drop 15 bytes)) (omega arith)
        ∙ ap (λ (rest : List Printed). row (take 15 bytes) ++ rest)
            (dump_bytes-rows fuel (k + 1) (drop 15 bytes) (omega (arith, length-drop 15 bytes)))))

-- A dump is the title with the number of the bytes, then the bytes in rows of 16, each behind the
-- offset of its first, every byte once and in order, then the end of the line.
pub dump_hex-rows :
    (prefix : String) (bytes : List ℕ)
    → dump_hex prefix bytes
      ≡ fprintf stdout "%s (%zu bytes):" (name prefix ∷ number (length bytes) ∷ [])
        ∷ (rows (suc (length bytes)) 0 bytes ++ newline ∷ [])
unfolding dump_hex
dump_hex-rows prefix bytes =
    ap
      (λ (x : List Printed).
        fprintf stdout "%s (%zu bytes):" (name prefix ∷ number (length bytes) ∷ [])
        ∷ (x ++ newline ∷ []))
      (dump_bytes-rows (suc (length bytes)) 0 bytes (omega arith))
