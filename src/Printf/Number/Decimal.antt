-- ===== src/Printf/Number/Decimal.antt =====
-- The decimal loop: it ends inside its buffer, and what it leaves there is the number's numeral.
use native.Mathlib.Nat.{pow-suc}
use caliptra_ss.Base.{
  ℕ, zero, suc, ◌+◌, ◌-◌, ◌*◌, ◌/◌, ◌%◌, ◌^◌, ◌≤◌, ◌<◌, ◌≡◌, ◌≢◌, refl, sym, ◌∙◌, ap, inl, inr,
  some, List, [], ◌∷◌, ◌++◌, arith, ◌==◌, leb, if◌then◌else◌, length, length-append, All,
  All-append, append_assoc, append-nil, Bool-cases,
}
use caliptra_ss.Printf.Digits.{fill_buffer, buffer_size}
use caliptra_ss.Printf.Number.{
  printed, undefined, padding, whisper_print_unsigned, whisper_print_decimal,
}

-- The number that decimal characters spell behind `n`.
abbrev pub decimal_value : ℕ → List ℕ → ℕ
decimal_value n [] = n
decimal_value n (c ∷ cs) = decimal_value (n * 10 + (c - b'0')) cs

abbrev pub IsDigit : ℕ → Type 0
IsDigit c = (b'0' ≤ c) × (c ≤ b'9')

-- The first digit of several is not 0.
abbrev pub NoLeadingZero : List ℕ → Type 0
NoLeadingZero [] = ⊥
NoLeadingZero (c ∷ []) = Unit
NoLeadingZero (c ∷ d ∷ cs) = c ≢ b'0'

-- `cs` is the decimal numeral of `n`: digits that spell it, with no needless zero in front.
pub record IsNumeral (n : ℕ) (cs : List ℕ) : Type 0 where
  pub digits : All IsDigit cs
  pub spells : decimal_value 0 cs ≡ n
  pub starts : NoLeadingZero cs

decimal_value-append :
    (n : ℕ) (cs : List ℕ) (c : ℕ)
    → decimal_value n (cs ++ c ∷ []) ≡ decimal_value n cs * 10 + (c - b'0')
decimal_value-append n [] c = refl
decimal_value-append n (d ∷ cs) c = decimal_value-append (n * 10 + (d - b'0')) cs c

NoLeadingZero-append :
    (cs : List ℕ) (c : ℕ) → decimal_value 0 cs ≢ 0 → NoLeadingZero cs → NoLeadingZero (cs ++ c ∷ [])
NoLeadingZero-append [] c h n = absurd n
NoLeadingZero-append (d ∷ []) c h n = λ e. h (omega arith)
NoLeadingZero-append (d ∷ e ∷ cs) c h n = n

IsNumeral-one : (v : ℕ) → v / 10 ≡ 0 → IsNumeral v ((b'0' + v % 10) ∷ [])
IsNumeral-one v e = record { digits = omega arith; spells = omega arith; starts = tt }

IsNumeral-more :
    (v : ℕ) (ds : List ℕ)
    → v / 10 ≢ 0
    → IsNumeral (v / 10) ds
    → IsNumeral v (ds ++ (b'0' + v % 10) ∷ [])
IsNumeral-more v ds h n = record {
  digits = All-append IsDigit ds ((b'0' + v % 10) ∷ []) n.digits (omega arith);
  spells = omega (arith, decimal_value-append 0 ds (b'0' + v % 10), n.spells);
  starts = NoLeadingZero-append ds (b'0' + v % 10) (λ e. h (sym n.spells ∙ e)) n.starts;
}

-- A number below ten to the power `suc n` has at most `suc n` digits. With room for them the loop
-- ends inside the buffer and leaves the numeral in front of what the buffer held.
fill_buffer_lem :
    (n room value : ℕ) (buffer : List ℕ)
    → n < room
    → value < 10 ^ suc n
    → (ds : List ℕ) × (fill_buffer room value buffer ≡ some (ds ++ buffer))
      × IsNumeral value ds
      × (length ds ≤ suc n)
unfolding fill_buffer
fill_buffer_lem n zero value buffer r h = absurd (omega arith)
fill_buffer_lem zero (suc room) value buffer r h =
    let small : value / 10 ≡ 0 = omega (arith, pow-suc 10 0) in
    ((b'0' + value % 10) ∷ [], ground arith, IsNumeral-one value small, omega arith)
fill_buffer_lem (suc n) (suc room) value buffer r h = elim (Bool-cases (value / 10 == 0)) [
  | inl e ↦ ((b'0' + value % 10) ∷ [], rw e, IsNumeral-one value (ground arith), omega arith)
  | inr e ↦
      let c = b'0' + value % 10 in
      let (ds, fills, numeral, short) =
        fill_buffer_lem n room (value / 10) (c ∷ buffer) (omega arith)
          (omega (arith, pow-suc 10 (suc n))) in
      (
        ds ++ c ∷ [],
        rw e (fills ∙ ap (λ (l : List ℕ). some l) (sym (append_assoc ds (c ∷ []) buffer))),
        IsNumeral-more value ds (ground arith) numeral,
        omega (arith, length-append ds (c ∷ [])),
      )
]

-- A 32-bit number has at most ten digits: half of the buffer is enough.
pub fill_buffer_word :
    (value : ℕ)
    → value < 2 ^ 32
    → (ds : List ℕ) × (fill_buffer buffer_size value [] ≡ some ds)
      × IsNumeral value ds
      × (length ds ≤ 10)
fill_buffer_word value h =
    let (ds, fills, numeral, short) =
      fill_buffer_lem 9 buffer_size value [] (omega arith) (omega arith) in
    (ds, fills ∙ ap (λ (l : List ℕ). some l) (append-nil ds), numeral, short)

-- Every 32-bit `unsigned` is printed: its numeral, of at most ten digits, behind as many padding
-- characters as the width asks for. The buffer does not overflow, and the padding is not counted.
pub print_unsigned_lem :
    (value width pad : ℕ)
    → value < 2 ^ 32
    → (ds : List ℕ) × IsNumeral value ds
      × (length ds ≤ 10)
      × (whisper_print_unsigned value width pad
          ≡ printed (length ds) (padding width (length ds) pad ++ ds))
unfolding whisper_print_unsigned
print_unsigned_lem value width pad h =
    let (ds, fills, numeral, short) = fill_buffer_word value h in
    (ds, numeral, short, ground (arith, fills))

-- Every `int` but the least is printed: a minus sign, if it is negative, then the padding, then the
-- numeral of its absolute value. The sign takes one character of the width and is counted; the
-- padding is not counted.
pub print_decimal_lem :
    (value width pad : ℕ)
    → value < 2 ^ 32
    → value ≢ 2 ^ 31
    → (ds : List ℕ) × (length ds ≤ 10)
      × (if leb (2 ^ 31) value
          then IsNumeral (2 ^ 32 - value) ds
            × (whisper_print_decimal value width pad
                ≡ printed (length ds + 1) (b'-' ∷ padding (width - 1) (length ds) pad ++ ds))
          else IsNumeral value ds
            × (whisper_print_decimal value width pad
                ≡ printed (length ds) (padding width (length ds) pad ++ ds)))
unfolding whisper_print_decimal
print_decimal_lem value width pad h ne = elim (Bool-cases (leb (2 ^ 31) value)) [
  | inl neg ↦
      let (ds, fills, numeral, short) = fill_buffer_word (2 ^ 32 - value) (ground arith) in
      (ds, short, rw neg (numeral, ground (arith, fills)))
  | inr nonneg ↦
      let (ds, fills, numeral, short) = fill_buffer_word value h in
      (ds, short, rw nonneg (numeral, ground (arith, fills)))
]

-- The least `int` cannot be negated: printing it has no defined behaviour.
pub print_decimal_least : (width pad : ℕ) → whisper_print_decimal (2 ^ 31) width pad ≡ undefined
unfolding whisper_print_decimal
print_decimal_least width pad = refl
