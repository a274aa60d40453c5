-- ===== src/Printf/Number.antt =====
-- `whisperPutc`, `whisperPuts`, `whisperPrintUnsigned`, `whisperPrintDecimal`, `whisperPrintInt`.
-- A 32-bit `int` or `unsigned` is its bit pattern, a number below 2 ^ 32.
pub mod Scan
pub mod Decimal
pub mod Power
use caliptra_ss.Base.{
  ℕ, suc, ◌+◌, ◌-◌, ◌^◌, ◌%◌, Bool, true, Option, none, some, List, [], ◌∷◌, ◌++◌, ◌==◌, leb,
  if◌then◌else◌, map, length, replicate,
}
use caliptra_ss.Printf.Digits.{
  fill_buffer, buffer_size, octal_digits, hex_digits, octal_char, hex_char,
}

-- What a printing function does: it returns a count and writes bytes; it returns -1 and writes
-- nothing; its behaviour is undefined; or the rounds given to a loop have run out.
pub data Printed : Type 0 where
  printed : ℕ → List ℕ → Printed
  minus_one undefined unfinished : Printed

unfoldable pub whisper_putc : ℕ → Printed
whisper_putc c = printed c (c ∷ [])

unfoldable pub whisper_puts : List ℕ → Printed
whisper_puts s = printed 1 (s ++ b'\n' ∷ [])

abbrev pub padding : ℕ → ℕ → ℕ → List ℕ
padding width count pad = replicate (width - count) pad

unfoldable pub whisper_print_unsigned : ℕ → ℕ → ℕ → Printed
whisper_print_unsigned value width pad = elim (fill_buffer buffer_size value []) [
  | none ↦ undefined
  | some ds ↦ printed (length ds) (padding width (length ds) pad ++ ds)
]

-- The part behind the sign; `charCount` starts at 0 and counts the digits.
abbrev pub print_magnitude : List ℕ → ℕ → ℕ → ℕ → ℕ → Printed
print_magnitude sign value width pad extra = elim (fill_buffer buffer_size value []) [
  | none ↦ undefined
  | some ds ↦ printed (length ds + extra) (sign ++ padding width (length ds) pad ++ ds)
]

-- `-value` overflows for the least `int`. A width of 0 becomes -1 for a negative number: there is no
-- padding in either case, since a number has a digit.
unfoldable pub whisper_print_decimal : ℕ → ℕ → ℕ → Printed
whisper_print_decimal value width pad =
    if leb (2 ^ 31) value
    then (if value == 2 ^ 31
        then undefined
        else print_magnitude (b'-' ∷ []) (2 ^ 32 - value) (width - 1) pad 1)
    else print_magnitude [] value width pad 0

abbrev pub print_digits : (ℕ → ℕ) → Option (List ℕ) → Printed
print_digits char none = unfinished
print_digits char (some ds) = printed (length ds) (map char ds)

-- In the bases 8 and 16 neither the width nor the padding is used.
unfoldable pub whisper_print_int : ℕ → ℕ → ℕ → ℕ → Printed
whisper_print_int value width pad base =
    if base == 10
    then whisper_print_decimal value width pad
    else if base == 8
    then print_digits octal_char (octal_digits value)
    else if base == 16
    then print_digits hex_char (hex_digits value)
    else minus_one
