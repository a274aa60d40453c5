-- ===== src/Printf/Pieces.antt =====
-- `printf` on whole formats: plain characters, `%%` and directives with their arguments, one after the other.
use caliptra_ss.Base.{
  ℕ, suc, ◌^◌, ◌%◌, ◌<◌, ◌≡◌, ◌≢◌, refl, ◌∙◌, ap, arith, List, [], ◌∷◌, ◌++◌, length, All, Bool,
  true, false, ◌==◌, if◌then◌else◌, Option, some, none,
}
use caliptra_ss.Printf.Number.{
  Printed, printed, whisper_print_unsigned, whisper_print_decimal, whisper_print_int,
}
use caliptra_ss.Printf.Number.Decimal.{decimal_value, IsDigit}
use caliptra_ss.Printf.Width.{read_width_lem}
use caliptra_ss.Printf.Format.{
  append_printed, continue_with, then_printed, read_width, parse_width, Arg, word, str, directive,
  finish_directive, convert, skip_zeros, skip_minus, printf_loop,
}

-- What a directive converts.
pub data Conversion : Type 0 where
  decimal unsigned hexadecimal octal character : ℕ → Conversion
  string : List ℕ → Conversion

abbrev pub letter : Conversion → ℕ
letter (decimal w) = b'd'
letter (unsigned w) = b'u'
letter (hexadecimal w) = b'x'
letter (octal w) = b'o'
letter (character w) = b'c'
letter (string s) = b's'

abbrev pub argument : Conversion → Arg
argument (decimal w) = word w
argument (unsigned w) = word w
argument (hexadecimal w) = word w
argument (octal w) = word w
argument (character w) = word w
argument (string s) = str s

-- What it prints, with a width and a character to pad with.
abbrev pub shows : Conversion → ℕ → ℕ → Printed
shows (decimal w) width pad = whisper_print_decimal w width pad
shows (unsigned w) width pad = whisper_print_unsigned w width pad
shows (hexadecimal w) width pad = whisper_print_int w width pad 16
shows (octal w) width pad = whisper_print_int w width pad 8
shows (character w) width pad = printed 1 (w % 2 ^ 8 ∷ [])
shows (string s) width pad = printed (length s) s

-- A word has 32 bits, and the least `int` cannot be printed as a decimal.
abbrev pub IsConvertible : Conversion → Type 0
IsConvertible (decimal w) = (w < 2 ^ 32) × (w ≢ 2 ^ 31)
IsConvertible (unsigned w) = w < 2 ^ 32
IsConvertible (hexadecimal w) = w < 2 ^ 32
IsConvertible (octal w) = w < 2 ^ 32
IsConvertible (character w) = Unit
IsConvertible (string s) = Unit

-- A piece of a format: a character, `%%`, or a directive: whether it has a 0 in front of its width, the
-- digits of the width, of which there may be none, and its conversion.
pub data Piece : Type 0 where
  plain : ℕ → Piece
  percent : Piece
  conversion : Bool → List ℕ → Conversion → Piece

abbrev pub flag : Bool → List ℕ → List ℕ
flag zeros fp = if zeros then b'0' ∷ fp else fp

abbrev pub pad_with : Bool → ℕ
pad_with zeros = if zeros then b'0' else b' '

-- The pieces as the bytes of a format, and their arguments.
abbrev pub format_of : List Piece → List ℕ
format_of [] = []
format_of (plain c ∷ ps) = c ∷ format_of ps
format_of (percent ∷ ps) = b'%' ∷ b'%' ∷ format_of ps
format_of (conversion zeros ds k ∷ ps) = b'%' ∷ flag zeros (ds ++ letter k ∷ format_of ps)

abbrev pub args_of : List Piece → List Arg
args_of [] = []
args_of (conversion zeros ds k ∷ ps) = argument k ∷ args_of ps
args_of (_ ∷ ps) = args_of ps

-- What they print: each its own, one behind the other. The percent sign of `%%` is not counted.
abbrev pub shown : List Piece → Printed
shown [] = printed 0 []
shown (plain c ∷ ps) = append_printed 1 (c ∷ []) (shown ps)
shown (percent ∷ ps) = append_printed 0 (b'%' ∷ []) (shown ps)
shown (conversion zeros ds k ∷ ps) =
    then_printed (shows k (decimal_value 0 ds) (pad_with zeros)) (shown ps)

-- The digits of a width do not start with a 0, which would be a flag.
abbrev pub IsWidth : List ℕ → Type 0
IsWidth [] = Unit
IsWidth (d ∷ ds) = (d ≢ b'0') × All IsDigit (d ∷ ds) × (decimal_value 0 (d ∷ ds) < 2 ^ 31)

abbrev pub IsPiece : Piece → Type 0
IsPiece (plain c) = c ≢ b'%'
IsPiece percent = Unit
IsPiece (conversion zeros ds k) = IsWidth ds × IsConvertible k

convert_lem :
    (k : Conversion) (width pad : ℕ) (args : List Arg)
    → convert (letter k) width pad (argument k ∷ args) ≡ (shows k width pad, args)
unfolding convert
convert_lem (decimal w) width pad args = refl
convert_lem (unsigned w) width pad args = refl
convert_lem (hexadecimal w) width pad args = refl
convert_lem (octal w) width pad args = refl
convert_lem (character w) width pad args = refl
convert_lem (string s) width pad args = refl

-- A letter is nothing that may stand between `%` and the letter.
pub record IsLetter (c : ℕ) : Type 0 where
  pub no_digit : ¬ IsDigit c
  pub no_percent : (c == b'%') ≡ false
  pub no_minus : (c == b'-') ≡ false
  pub no_zero : (c == b'0') ≡ false
  pub no_star : (c == b'*') ≡ false

pub letter-IsLetter : (k : Conversion) → IsLetter (letter k)
letter-IsLetter (decimal w) = record {
  no_digit = λ h. omega (arith, h.1);
  no_percent = refl;
  no_minus = refl;
  no_zero = refl;
  no_star = refl;
}
letter-IsLetter (unsigned w) = record {
  no_digit = λ h. omega (arith, h.1);
  no_percent = refl;
  no_minus = refl;
  no_zero = refl;
  no_star = refl;
}
letter-IsLetter (hexadecimal w) = record {
  no_digit = λ h. omega (arith, h.1);
  no_percent = refl;
  no_minus = refl;
  no_zero = refl;
  no_star = refl;
}
letter-IsLetter (octal w) = record {
  no_digit = λ h. omega (arith, h.1);
  no_percent = refl;
  no_minus = refl;
  no_zero = refl;
  no_star = refl;
}
letter-IsLetter (character w) = record {
  no_digit = λ h. omega (arith, h.1);
  no_percent = refl;
  no_minus = refl;
  no_zero = refl;
  no_star = refl;
}
letter-IsLetter (string s) = record {
  no_digit = λ h. omega (arith, h.1);
  no_percent = refl;
  no_minus = refl;
  no_zero = refl;
  no_star = refl;
}

-- The width of a directive.
parse_width_lem :
    (ds : List ℕ) (c : ℕ) (fp : List ℕ) (args : List Arg)
    → IsWidth ds
    → IsLetter c
    → parse_width (ds ++ c ∷ fp) args ≡ some (decimal_value 0 ds, c ∷ fp, args)
unfolding parse_width
parse_width_lem [] c fp args h l =
    let read : read_width 0 (c ∷ fp) ≡ some (0, c ∷ fp) =
      read_width_lem 0 [] (c ∷ fp) tt (omega arith) l.no_digit in
    ground (arith, l.no_star, read)
parse_width_lem (d ∷ ds) c fp args (_, digits, small) l =
    let no_star : (d == b'*') ≡ false = ground (arith, digits.0) in
    let read = read_width_lem 0 (d ∷ ds) (c ∷ fp) digits small l.no_digit in
    ground (arith, no_star, read)

pub directive_lem :
    (pad : ℕ) (ds : List ℕ) (k : Conversion) (fp : List ℕ) (args : List Arg)
    → IsWidth ds
    → directive pad (ds ++ letter k ∷ fp) (argument k ∷ args)
      ≡ some (shows k (decimal_value 0 ds) pad, fp, args)
unfolding directive finish_directive
directive_lem pad ds k fp args h =
    ap
      (λ (r : Option (ℕ × List ℕ × List Arg)). elim r [
        | none ↦ none
        | some r ↦ finish_directive pad r
      ])
      (parse_width_lem ds (letter k) fp (argument k ∷ args) h (letter-IsLetter k))
    ∙ ap (λ (r : Printed × List Arg). some (r.0, fp, r.1))
        (convert_lem k (decimal_value 0 ds) pad args)

-- The flag in front of what is no flag.
pub flag_lem :
    (rounds : ℕ) (zeros : Bool) (c : ℕ) (fp : List ℕ) (args : List Arg)
    → (c == b'%') ≡ false
    → (c == b'-') ≡ false
    → (c == b'0') ≡ false
    → printf_loop (suc rounds) (b'%' ∷ flag zeros (c ∷ fp)) args
      ≡ continue_with (directive (pad_with zeros) (c ∷ fp) args) (printf_loop rounds)
unfolding printf_loop skip_zeros skip_minus
flag_lem rounds true c fp args no_percent no_minus no_zero = rw no_zero (rw no_minus refl)
flag_lem rounds false c fp args no_percent no_minus no_zero =
    rw no_percent (rw no_zero (rw no_minus refl))
