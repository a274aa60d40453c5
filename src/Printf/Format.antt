-- ===== src/Printf/Format.antt =====
-- `whisperPrintfImpl`, the interpreter of format strings. A string is its bytes before the
-- terminating 0, so the end of the list is the 0; a byte behind it is not there to be read.
use caliptra_ss.Base.{
  ℕ, zero, suc, ◌+◌, ◌-◌, ◌*◌, ◌^◌, ◌%◌, ◌&&◌, Option, none, some, List, [], ◌∷◌, ◌++◌, ◌==◌, leb,
  ltb, if◌then◌else◌, length,
}
use caliptra_ss.Printf.Number.{
  Printed, printed, minus_one, undefined, unfinished, whisper_print_unsigned, whisper_print_decimal,
  whisper_print_int, whisper_putc, whisper_puts,
}

-- A variable argument: an `int` or `unsigned` word, or a string.
pub data Arg : Type 0 where
  word : ℕ → Arg
  str : List ℕ → Arg

-- `while (*fp == '0') { pad = '0'; fp++; }`
unfoldable pub skip_zeros : ℕ → List ℕ → ℕ × List ℕ
skip_zeros pad [] = (pad, [])
skip_zeros pad (c ∷ fp) = let rest = skip_zeros b'0' fp in if c == b'0' then rest else (pad, c ∷ fp)

-- `if (*fp == '-') fp++;`
unfoldable pub skip_minus : List ℕ → List ℕ
skip_minus [] = []
skip_minus (c ∷ fp) = if c == b'-' then fp else c ∷ fp

-- The digits of a width; `none` where `width` overflows an `int`.
unfoldable pub read_width : ℕ → List ℕ → Option (ℕ × List ℕ)
read_width width [] = some (width, [])
read_width width (c ∷ fp) =
    let width' = width * 10 + (c - b'0') in
    let rest = read_width width' fp in
    let digit = if ltb width' (2 ^ 31) then rest else none in
    if leb b'0' c && leb c b'9' then digit else some (width, c ∷ fp)

-- A `*` takes an argument and leaves the width 0. The result is the width, the rest of the format
-- and the rest of the arguments.
unfoldable pub parse_width : List ℕ → List Arg → Option (ℕ × List ℕ × List Arg)
unfolding read_width
parse_width [] args = some (0, [], args)
parse_width (c ∷ fp) args =
    if c == b'*'
    then elim args [ word w ∷ rest ↦ some (0, fp, rest) | _ ↦ none ]
    else elim (read_width 0 (c ∷ fp)) [ none ↦ none | some (w, rest) ↦ some (w, rest, args) ]

-- An argument of the other kind, or none: undefined.
abbrev pub with_word : List Arg → (ℕ → Printed) → Printed × List Arg
with_word (word w ∷ args) print = (print w, args)
with_word args print = (undefined, args)

abbrev pub with_str : List Arg → Printed × List Arg
with_str (str s ∷ args) = (printed (length s) s, args)
with_str args = (undefined, args)

-- The `switch`: an unknown letter prints nothing and takes no argument.
unfoldable pub convert : ℕ → ℕ → ℕ → List Arg → Printed × List Arg
convert c width pad args =
    if c == b'd'
    then with_word args (λ w. whisper_print_decimal w width pad)
    else if c == b'u'
    then with_word args (λ w. whisper_print_unsigned w width pad)
    else if c == b'x'
    then with_word args (λ w. whisper_print_int w width pad 16)
    else if c == b'X'
    then with_word args (λ w. whisper_print_int w width pad 16)
    else if c == b'o'
    then with_word args (λ w. whisper_print_int w width pad 8)
    else if c == b'c'
    then with_word args (λ w. printed 1 (w % 2 ^ 8 ∷ []))
    else if c == b's'
    then with_str args
    else (printed 0 [], args)

-- A directive behind its width. At the end of the format no case of the `switch` fits, and the
-- `fp++` of the loop steps over the terminating 0.
unfoldable pub finish_directive : ℕ → ℕ × List ℕ × List Arg → Option (Printed × List ℕ × List Arg)
unfolding convert
finish_directive pad (width, [], args) = none
finish_directive pad (width, c ∷ rest, args) =
    let (p, args') = convert c width pad args in some (p, rest, args')

-- A directive behind its `%` and its flags.
unfoldable pub directive : ℕ → List ℕ → List Arg → Option (Printed × List ℕ × List Arg)
unfolding parse_width finish_directive
directive pad fp args = elim (parse_width fp args) [ none ↦ none | some r ↦ finish_directive pad r ]

abbrev pub append_printed : ℕ → List ℕ → Printed → Printed
append_printed n out (printed m bytes) = printed (n + m) (out ++ bytes)
append_printed n out minus_one = minus_one
append_printed n out undefined = undefined
append_printed n out unfinished = unfinished

abbrev pub then_printed : Printed → Printed → Printed
then_printed (printed n out) p = append_printed n out p
then_printed minus_one p = minus_one
then_printed undefined p = undefined
then_printed unfinished p = unfinished

-- What a directive prints, and then what the loop prints on the rest.
abbrev pub continue_with :
    Option (Printed × List ℕ × List Arg) → (List ℕ → List Arg → Printed) → Printed
continue_with none loop = undefined
continue_with (some (p, fp, args)) loop = then_printed p (loop fp args)

-- The loop over the format; the first argument bounds the rounds. `%%` prints a percent sign that
-- is not counted, and a `%` at the end prints nothing.
unfoldable pub printf_loop : ℕ → List ℕ → List Arg → Printed
unfolding skip_zeros skip_minus directive
printf_loop zero fp args = unfinished
printf_loop (suc rounds) [] args = printed 0 []
printf_loop (suc rounds) (c ∷ []) args =
    let rest = printf_loop rounds [] args in
    if c == b'%' then printed 0 [] else append_printed 1 (c ∷ []) rest
printf_loop (suc rounds) (c ∷ d ∷ fp) args =
    let text = printf_loop rounds (d ∷ fp) args in
    let percent = printf_loop rounds fp args in
    let (pad, fp₁) = skip_zeros b' ' (d ∷ fp) in
    let converted = continue_with (directive pad (skip_minus fp₁) args) (printf_loop rounds) in
    let after_percent = if d == b'%' then append_printed 0 (b'%' ∷ []) percent else converted in
    if c == b'%' then after_percent else append_printed 1 (c ∷ []) text

-- `whisperPrintf`, `printf`
unfoldable pub printf : List ℕ → List Arg → Printed
unfolding printf_loop
printf format args = printf_loop (suc (length format)) format args

-- The functions under their other names. `whisperPutc` takes a `char`: an `int` is cut to 8 bits.
abbrev pub whisper_printf : List ℕ → List Arg → Printed
whisper_printf format args = printf format args

abbrev pub putchar : ℕ → Printed
putchar c = whisper_putc (c % 2 ^ 8)

abbrev pub putc : ℕ → Printed
putc c = whisper_putc (c % 2 ^ 8)

abbrev pub puts : List ℕ → Printed
puts s = whisper_puts s
