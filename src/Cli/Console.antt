-- ===== src/Cli/Console.antt =====
-- What the tool prints: each call of the C library's output functions with its arguments.
pub mod Rows
use Prim.Native.String.{String}
use usbmux_tool.Base.{ℕ, ◌%◌, ◌+◌, List, [], ◌∷◌, ◌++◌, length, ℤ, ◌==◌, if◌then◌else◌}

pub data Stream : Type 0 where
  stdout stderr : Stream

pub data Arg : Type 0 where
  number : ℕ → Arg
  integer : ℤ → Arg
  name : String → Arg
  text : List ℕ → Arg

pub data Printed : Type 0 where
  -- `fprintf(stream, format, ...)`; `printf` is the one on stdout
  fprintf : Stream → String → List Arg → Printed
  -- `putchar(c)`
  putchar : ℕ → Printed
  -- `fwrite(bytes, 1, n, stdout)`
  fwrite : List ℕ → Printed

abbrev pub newline : Printed
newline = putchar 10

-- The loop of `dump_hex`, from the index `i` on.
unfoldable pub dump_bytes : ℕ → List ℕ → List Printed
dump_bytes i [] = []
dump_bytes i (b ∷ bytes) =
    let rest = dump_bytes (i + 1) bytes in
    if i % 16 == 0
    then fprintf stdout "\n  %04zu:" (number i ∷ []) ∷ fprintf stdout " %02X" (number b ∷ []) ∷ rest
    else fprintf stdout " %02X" (number b ∷ []) ∷ rest

unfoldable pub dump_hex : String → List ℕ → List Printed
unfolding dump_bytes
dump_hex prefix bytes =
    fprintf stdout "%s (%zu bytes):" (name prefix ∷ number (length bytes) ∷ [])
    ∷ (dump_bytes 0 bytes ++ newline ∷ [])
