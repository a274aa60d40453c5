-- ===== src/Printf/Digits.antt =====
-- The digit loops: decimal digits into a buffer of 20 characters, and octal or hexadecimal digits
-- from the highest down.
use caliptra_ss.Base.{
  ℕ, zero, suc, ◌+◌, ◌-◌, ◌/◌, ◌%◌, ◌^◌, Bool, true, false, not, ◌||◌, Option, none, some, List, [],
  ◌∷◌, ◌==◌, leb, ltb, if◌then◌else◌,
}

-- `do { buffer[charCount++] = '0' + value % 10; value = value / 10; } while (value);`
-- The first argument is how much of `buffer` is free: a store past its end is a fault, `none`. The
-- list is the buffer's content, the last store first: the order in which it is printed.
unfoldable pub fill_buffer : ℕ → ℕ → List ℕ → Option (List ℕ)
fill_buffer zero value buffer = none
fill_buffer (suc room) value buffer =
    let stored = (b'0' + value % 10) ∷ buffer in
    let rest = fill_buffer room (value / 10) stored in if value / 10 == 0 then some stored else rest

-- `char buffer[20]`
abbrev pub buffer_size : ℕ
buffer_size = 20

abbrev pub prepend : Bool → ℕ → Option (List ℕ) → Option (List ℕ)
prepend true d (some ds) = some (d ∷ ds)
prepend true d none = none
prepend false d r = r

-- `for (uint8_t ii = top; ii <= top; ii -= step)`, which ends when `ii` wraps below 0. A digit is
-- printed if it is not 0, if one has been printed, or where `shown ii` holds. The first argument
-- bounds the rounds.
unfoldable pub scan_digits : (step top : ℕ) → (ℕ → Bool) → ℕ → ℕ → Bool → ℕ → Option (List ℕ)
scan_digits step top shown zero ii flag uu = none
scan_digits step top shown (suc rounds) ii flag uu =
    let digit = uu / 2 ^ ii % 2 ^ step in
    let print = flag || not (digit == 0) || shown ii in
    let rest = scan_digits step top shown rounds ((ii + 2 ^ 8 - step) % 2 ^ 8) print uu in
    if leb ii top then prepend print digit rest else some []

-- Base 8: no digit is printed for 0.
unfoldable pub octal_digits : ℕ → Option (List ℕ)
unfolding scan_digits
octal_digits uu = scan_digits 3 30 (λ ii. false) 12 30 false uu

-- Base 16: `ii == 0` prints the last digit in any case.
unfoldable pub hex_digits : ℕ → Option (List ℕ)
unfolding scan_digits
hex_digits uu = scan_digits 4 28 (λ ii. ii == 0) 9 28 false uu

unfoldable pub octal_char : ℕ → ℕ
octal_char digit = b'0' + digit

unfoldable pub hex_char : ℕ → ℕ
hex_char digit = if ltb digit 10 then b'0' + digit else b'A' + digit - 10
