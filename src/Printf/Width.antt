-- ===== src/Printf/Width.antt =====
-- A width that is written in a format, and a number that is printed, are the same numerals.
use caliptra_ss.Base.{
  ℕ, suc, ◌+◌, ◌-◌, ◌*◌, ◌^◌, ◌≤◌, ◌<◌, ◌≡◌, ◌≢◌, refl, sym, ◌∙◌, ap, ap₂, arith, List, [], ◌∷◌,
  ◌++◌, length, append-nil, All, Bool, false, ◌==◌, if◌then◌else◌, Option, replicate, some, none,
}
use caliptra_ss.Printf.Number.{Printed, printed, padding, whisper_print_unsigned}
use caliptra_ss.Printf.Number.Decimal.{decimal_value, IsDigit, IsNumeral, print_unsigned_lem}
use caliptra_ss.Printf.Format.{
  continue_with, then_printed, read_width, parse_width, Arg, word, directive, finish_directive,
  convert, skip_zeros, skip_minus, printf_loop, printf,
}

-- What follows a numeral does not go on with it.
abbrev pub Ends : List ℕ → Type 0
Ends [] = Unit
Ends (c ∷ cs) = ¬ IsDigit c

decimal_value-ge : (n : ℕ) (cs : List ℕ) → n ≤ decimal_value n cs
decimal_value-ge n [] = omega arith
decimal_value-ge n (c ∷ cs) = omega (arith, decimal_value-ge (n * 10 + (c - b'0')) cs)

read_width-end : (n : ℕ) (rest : List ℕ) → Ends rest → read_width n rest ≡ some (n, rest)
unfolding read_width
read_width-end n [] e = refl
read_width-end n (c ∷ rest) e = ground (arith, e)

pub read_width_lem :
    (n : ℕ) (cs rest : List ℕ)
    → All IsDigit cs
    → decimal_value n cs < 2 ^ 31
    → Ends rest
    → read_width n (cs ++ rest) ≡ some (decimal_value n cs, rest)
unfolding read_width
read_width_lem n [] rest h l e = read_width-end n rest e
read_width_lem n (c ∷ cs) rest (d, h) l e = ground (
  arith,
  decimal_value-ge (n * 10 + (c - b'0')) cs,
  read_width_lem (n * 10 + (c - b'0')) cs rest h l e,
)

no_padding : (n pad : ℕ) (ds : List ℕ) → printed n (padding 0 n pad ++ ds) ≡ printed n ds
no_padding n pad ds = ap (λ (k : ℕ). printed n (replicate k pad ++ ds)) (nothing n)
  where
    nothing : (n : ℕ) → 0 - n ≡ 0
    nothing n = omega arith

starts_with : (value : ℕ) (c : ℕ) (cs : List ℕ) → value ≢ 0 → IsNumeral value (c ∷ cs) → c ≢ b'0'
starts_with value c [] h n e = h (sym n.spells ∙ omega (arith, e))
starts_with value c (d ∷ cs) h n e = n.starts e

parse_width_lem :
    (c value w : ℕ) (cs : List ℕ)
    → value < 2 ^ 31
    → IsNumeral value (c ∷ cs)
    → parse_width (c ∷ cs ++ b'u' ∷ []) (word w ∷ []) ≡ some (value, b'u' ∷ [], word w ∷ [])
unfolding parse_width read_width
parse_width_lem c value w cs l n =
    let no_star : (c == b'*') ≡ false = ground (arith, n.digits.0) in
    let with_args : Option (ℕ × List ℕ) → Option (ℕ × List ℕ × List Arg) =
      λ r. elim r [ none ↦ none | some (v, fp) ↦ some (v, fp, word w ∷ []) ] in
    ap
      (λ (b : Bool).
        if b then some (0, cs ++ b'u' ∷ [], []) else with_args (read_width 0 (c ∷ cs ++ b'u' ∷ [])))
      no_star
    ∙ ap with_args (
        read_width_lem 0 (c ∷ cs) (b'u' ∷ []) n.digits (omega (arith, n.spells))
          (λ d. omega (arith, d.1)))
    ∙ ap (λ (v : ℕ). some (v, b'u' ∷ [], word w ∷ [])) n.spells

directive_lem :
    (c value w : ℕ) (cs : List ℕ)
    → value < 2 ^ 31
    → IsNumeral value (c ∷ cs)
    → directive b' ' (c ∷ cs ++ b'u' ∷ []) (word w ∷ [])
      ≡ some (whisper_print_unsigned w value b' ', [], [])
unfolding directive parse_width finish_directive convert
directive_lem c value w cs l n =
    ap
      (λ (r : Option (ℕ × List ℕ × List Arg)). elim r [
        | none ↦ none
        | some r ↦ finish_directive b' ' r
      ])
      (parse_width_lem c value w cs l n)

-- `%`, a numeral of a number from 1 to 2 ^ 31 - 1, and `u`.
loop_lem :
    (c value w rounds : ℕ) (cs : List ℕ)
    → value ≢ 0
    → value < 2 ^ 31
    → IsNumeral value (c ∷ cs)
    → printf_loop (suc (suc rounds)) (b'%' ∷ c ∷ cs ++ b'u' ∷ []) (word w ∷ [])
      ≡ then_printed (whisper_print_unsigned w value b' ') (printed 0 [])
unfolding printf_loop skip_zeros skip_minus
loop_lem c value w rounds cs h l n =
    let no_zero : (c == b'0') ≡ false = ground (arith, starts_with value c cs h n) in
    let no_percent : (c == b'%') ≡ false = ground (arith, n.digits.0) in
    let no_minus : (c == b'-') ≡ false = ground (arith, n.digits.0) in
    rw no_percent (
      rw no_zero (
        rw no_minus
          (ap (λ r. continue_with r (printf_loop (suc rounds))) (directive_lem c value w cs l n))))

nothing_more : (n : ℕ) (l : List ℕ) → printed (n + 0) (l ++ []) ≡ printed n l
nothing_more n l = ap₂ printed (omega arith) (append-nil l)

then_nothing :
    (w width : ℕ)
    → w < 2 ^ 32
    → then_printed (whisper_print_unsigned w width b' ') (printed 0 [])
      ≡ whisper_print_unsigned w width b' '
then_nothing w width h =
    let (ds, numeral, short, prints) = print_unsigned_lem w width b' ' h in
    ap (λ (p : Printed). then_printed p (printed 0 [])) prints
    ∙ nothing_more (length ds) (padding width (length ds) b' ' ++ ds)
    ∙ sym prints

in_format :
    (value w : ℕ) (ds : List ℕ)
    → value ≢ 0
    → value < 2 ^ 31
    → w < 2 ^ 32
    → IsNumeral value ds
    → printf (b'%' ∷ ds ++ b'u' ∷ []) (word w ∷ []) ≡ whisper_print_unsigned w value b' '
unfolding printf
in_format value w [] h l k n = absurd n.starts
in_format value w (c ∷ cs) h l k n =
    loop_lem c value w (suc (length (cs ++ b'u' ∷ []))) cs h l n ∙ then_nothing w value k

-- A number from 1 to 2 ^ 31 - 1 that `whisperPrintUnsigned` prints with no width makes a width: put between `%` and
-- `u`, what was printed is read back as the same number, and `printf` prints any 32-bit word padded with
-- spaces to that width.
pub printf-whisper_print_unsigned :
    (value pad w : ℕ)
    → value ≢ 0
    → value < 2 ^ 31
    → w < 2 ^ 32
    → (ds : List ℕ) × (whisper_print_unsigned value 0 pad ≡ printed (length ds) ds)
      × (read_width 0 (ds ++ b'u' ∷ []) ≡ some (value, b'u' ∷ []))
      × (printf (b'%' ∷ ds ++ b'u' ∷ []) (word w ∷ []) ≡ whisper_print_unsigned w value b' ')
printf-whisper_print_unsigned value pad w h l k =
    let (ds, numeral, short, prints) = print_unsigned_lem value 0 pad (omega arith) in
    (
      ds,
      prints ∙ no_padding (length ds) pad ds,
      read_width_lem 0 ds (b'u' ∷ []) numeral.digits (omega (arith, numeral.spells))
            (λ d. omega (arith, d.1))
          ∙ ap (λ (v : ℕ). some (v, b'u' ∷ [])) numeral.spells,
      in_format value w ds h l k numeral,
    )
