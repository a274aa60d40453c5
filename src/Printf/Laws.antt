-- ===== src/Printf/Laws.antt =====
-- `printf` on whole formats: text, digits behind a percent sign, and the ends of a format.
use caliptra_ss.Base.{
  ℕ, suc, ◌+◌, ◌-◌, ◌*◌, ◌≡◌, ◌≢◌, refl, sym, ◌∙◌, ap, none, some, List, [], ◌∷◌, ◌++◌, arith,
  length, length-append, All, Option-cases, inl, inr,
}
use caliptra_ss.Printf.Number.{Printed, printed, minus_one, undefined, unfinished}
use caliptra_ss.Printf.Number.Decimal.{IsDigit}
use caliptra_ss.Printf.Format.{
  Arg, skip_zeros, skip_minus, read_width, directive, append_printed, printf_loop, printf,
}

abbrev pub IsText : List ℕ → Type 0
IsText = All (λ c. c ≢ b'%')

append_printed-zero : (p : Printed) → append_printed 0 [] p ≡ p
append_printed-zero (printed m out) = ap (λ (n : ℕ). printed n out) (omega arith)
append_printed-zero minus_one = refl
append_printed-zero undefined = refl
append_printed-zero unfinished = refl

append_printed-cons :
    (c n : ℕ) (text : List ℕ) (p : Printed)
    → append_printed 1 (c ∷ []) (append_printed n text p) ≡ append_printed (suc n) (c ∷ text) p
append_printed-cons c n text (printed m out) =
    ap (λ (k : ℕ). printed k (c ∷ (text ++ out))) (omega arith)
append_printed-cons c n text minus_one = refl
append_printed-cons c n text undefined = refl
append_printed-cons c n text unfinished = refl

pub text_step :
    (rounds c : ℕ) (fp : List ℕ) (args : List Arg)
    → c ≢ b'%'
    → printf_loop (suc rounds) (c ∷ fp) args
      ≡ append_printed 1 (c ∷ []) (printf_loop rounds fp args)
unfolding printf_loop
text_step rounds c [] args h = ground arith
text_step rounds c (d ∷ fp) args h = ground arith

text_lem :
    (rounds : ℕ) (text fp : List ℕ) (args : List Arg)
    → IsText text
    → printf_loop (length text + rounds) (text ++ fp) args
      ≡ append_printed (length text) text (printf_loop rounds fp args)
text_lem rounds [] fp args h =
    ap (λ (n : ℕ). printf_loop n fp args) (omega arith) ∙ sym (append_printed-zero _)
text_lem rounds (c ∷ text) fp args (hc, h) =
    ap (λ (n : ℕ). printf_loop n (c ∷ (text ++ fp)) args) (more (length text) rounds)
    ∙ text_step (length text + rounds) c (text ++ fp) args hc
    ∙ ap (append_printed 1 (c ∷ [])) (text_lem rounds text fp args h)
    ∙ append_printed-cons c (length text) text _
  where
    more : (n m : ℕ) → suc n + m ≡ suc (n + m)
    more n m = omega arith

-- Text in front of any format is printed as it is, and each of its characters is counted; the rest
-- of the format then prints what it prints alone.
pub printf-text :
    (text fp : List ℕ) (args : List Arg)
    → IsText text
    → printf (text ++ fp) args ≡ append_printed (length text) text (printf fp args)
unfolding printf
printf-text text fp args h =
    ap (λ (n : ℕ). printf_loop n (text ++ fp) args) (rounds text fp)
    ∙ text_lem (suc (length fp)) text fp args h
  where
    rounds : (text fp : List ℕ) → suc (length (text ++ fp)) ≡ length text + suc (length fp)
    rounds text fp = omega (arith, length-append text fp)

-- A single percent sign at the end of a format prints nothing.
percent_last : (args : List Arg) → printf (b'%' ∷ []) args ≡ printed 0 []
unfolding printf
percent_last args = refl

-- Digits behind a percent sign, up to the end of the format.
skip_zeros-digits : (pad : ℕ) (ds : List ℕ) → All IsDigit ds → All IsDigit (skip_zeros pad ds).1
unfolding skip_zeros
skip_zeros-digits pad [] h = tt
skip_zeros-digits pad (d ∷ ds) (hd, h) = ground (arith, skip_zeros-digits b'0' ds h)

read_width-digits :
    (width : ℕ) (ds : List ℕ) (w : ℕ) (rest : List ℕ)
    → All IsDigit ds
    → read_width width ds ≡ some (w, rest)
    → rest ≡ []
unfolding read_width
read_width-digits width [] w rest h e = ground arith
read_width-digits width (d ∷ ds) w rest (hd, h) e =
    ground (arith, read_width-digits (width * 10 + (d - b'0')) ds w rest h)

directive-digits :
    (pad : ℕ) (ds : List ℕ) (args : List Arg)
    → All IsDigit ds
    → directive pad (skip_minus ds) args ≡ none
directive-digits pad [] args h = unfold directive skip_minus in refl
directive-digits pad (d ∷ ds) args (hd, h) = elim (Option-cases (read_width 0 (d ∷ ds))) [
  | inl r ↦ unfold directive skip_minus in ground (arith, r)
  | inr ((w, rest), r) ↦
      let e = read_width-digits 0 (d ∷ ds) w rest (hd, h) r in
      unfold directive skip_minus in ground (arith, r, e)
]

-- A format that ends inside a directive, behind a percent sign and at least one digit, makes the loop
-- read past the terminating 0: whatever text stands before it, whatever the arguments are.
pub printf-overrun :
    (text : List ℕ) (d : ℕ) (ds : List ℕ) (args : List Arg)
    → IsText text
    → All IsDigit (d ∷ ds)
    → printf (text ++ b'%' ∷ d ∷ ds) args ≡ undefined
printf-overrun text d ds args t (hd, h) =
    printf-text text (b'%' ∷ d ∷ ds) args t ∙ ap (append_printed (length text) text) overrun
  where
    overrun : printf (b'%' ∷ d ∷ ds) args ≡ undefined
    overrun =
        unfold printf in
        ground (
          arith,
          directive-digits (skip_zeros b' ' (d ∷ ds)).0 (skip_zeros b' ' (d ∷ ds)).1 args
              (skip_zeros-digits b' ' (d ∷ ds) (hd, h)),
        )
