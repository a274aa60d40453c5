-- ===== src/Printf/Number/Power.antt =====
-- `%o` and `%x`: the digits that the scan from the highest digit down prints spell the number.
use native.Mathlib.Nat.{pow-suc}
use caliptra_ss.Base.{
  if◌then◌else◌, leb, ◌&&◌, ◌-◌, ap₂, sym, subst, ℕ, zero, suc, ◌+◌, ◌*◌, ◌/◌, ◌%◌, ◌^◌, ◌<◌, ◌≡◌,
  ◌≢◌, ◌⊎◌, inl, inr, refl, ◌∙◌, ap, true, false, some, List, [], ◌∷◌, arith, ◌==◌, length, All,
  map,
}
use caliptra_ss.Printf.Digits.{octal_digits, hex_digits, octal_char, hex_char}
use caliptra_ss.Printf.Number.Scan.{value_in, NoLeadingZero, scan_lem}
use caliptra_ss.Printf.Number.{printed, whisper_print_int}

octal_place : ℕ → ℕ
octal_place k = (3 * k + 253) % 256

hex_place : ℕ → ℕ
hex_place k = (4 * k + 252) % 256

octal_power : (k : ℕ) → 2 ^ (3 * k) ≡ 8 ^ k
octal_power zero = refl
octal_power (suc k) =
    ap (λ (n : ℕ). 2 ^ n) (three_more k)
    ∙ omega (
      arith,
      pow-suc 2 (suc (suc (3 * k))),
      pow-suc 2 (suc (3 * k)),
      pow-suc 2 (3 * k),
      pow-suc 8 k,
      octal_power k,
    )
  where
    three_more : (k : ℕ) → 3 * suc k ≡ suc (suc (suc (3 * k)))
    three_more k = omega arith

hex_power : (k : ℕ) → 2 ^ (4 * k) ≡ 16 ^ k
hex_power zero = refl
hex_power (suc k) =
    ap (λ (n : ℕ). 2 ^ n) (four_more k)
    ∙ omega (
      arith,
      pow-suc 2 (suc (suc (suc (4 * k)))),
      pow-suc 2 (suc (suc (4 * k))),
      pow-suc 2 (suc (4 * k)),
      pow-suc 2 (4 * k),
      pow-suc 16 k,
      hex_power k,
    )
  where
    four_more : (k : ℕ) → 4 * suc k ≡ suc (suc (suc (suc (4 * k))))
    four_more k = omega arith

-- What is printed for `uu` in base `b`: digits of that base that spell it, with no needless 0 in
-- front.
pub record IsNumeral (b uu : ℕ) (ds : List ℕ) : Type 0 where
  pub digits : All (λ d. d < b) ds
  pub value : value_in b 0 ds ≡ uu
  pub lead : NoLeadingZero ds

octal-IsNumeral :
    (uu : ℕ) → uu < 2 ^ 32 → (ds : List ℕ) × (octal_digits uu ≡ some ds) × IsNumeral 8 uu ds
unfolding octal_digits octal_place
octal-IsNumeral uu h =
    let s =
      scan_lem 3 30 11 (λ ii. false) octal_place (omega arith) (λ k l. omega arith)
        (λ k l. omega arith) powers (λ k l e. cc) (omega arith) 11 uu false (omega arith)
        (λ e. omega arith) in
    (
      s.ds,
      s.found,
      record {
        digits = s.digits;
        value = ap (λ (n : ℕ). value_in 8 n s.ds) nothing_above ∙ s.value;
        lead = s.lead refl;
      },
    )
  where
    powers : (k : ℕ) → k < 11 → 2 ^ octal_place (suc k) ≡ (2 ^ 3) ^ k
    powers k l = ap (λ (n : ℕ). 2 ^ n) (at_place k l) ∙ octal_power k
      where
        at_place : (k : ℕ) → k < 11 → octal_place (suc k) ≡ 3 * k
        at_place k l = omega arith

    nothing_above : 0 ≡ uu / (2 ^ 3) ^ 11
    nothing_above = omega arith

hex-IsNumeral :
    (uu : ℕ) → uu < 2 ^ 32 → (ds : List ℕ) × (hex_digits uu ≡ some ds) × IsNumeral 16 uu ds
unfolding hex_digits hex_place
hex-IsNumeral uu h =
    let s =
      scan_lem 4 28 8 (λ ii. ii == 0) hex_place (omega arith) (λ k l. omega arith)
        (λ k l. omega arith) powers final (omega arith) 8 uu false (omega arith)
        (λ e. omega arith) in
    (
      s.ds,
      s.found,
      record {
        digits = s.digits;
        value = ap (λ (n : ℕ). value_in 16 n s.ds) nothing_above ∙ s.value;
        lead = s.lead refl;
      },
    )
  where
    powers : (k : ℕ) → k < 8 → 2 ^ hex_place (suc k) ≡ (2 ^ 4) ^ k
    powers k l = ap (λ (n : ℕ). 2 ^ n) (at_place k l) ∙ hex_power k
      where
        at_place : (k : ℕ) → k < 8 → hex_place (suc k) ≡ 4 * k
        at_place k l = omega arith

    nothing_above : 0 ≡ uu / (2 ^ 4) ^ 8
    nothing_above = omega arith

    final : (k : ℕ) → k < 8 → (hex_place (suc k) == 0) ≡ true → k ≡ 0
    final k l e = ground arith

octal_zero : octal_digits 0 ≡ some []
unfolding octal_digits
octal_zero = refl

hex_zero : hex_digits 0 ≡ some (0 ∷ [])
unfolding hex_digits
hex_zero = refl

zero_or_not : {A : Type 0} (uu : ℕ) → (uu ≡ 0 → A) → (uu ≢ 0) ⊎ A
zero_or_not zero f = inr (f refl)
zero_or_not (suc uu) f = inl (λ e. omega arith)

-- What a character is worth as a digit: 0 to 9, and A to F for 10 to 15; a character that is no digit is
-- worth 16, which is no digit of any base up to 16.
abbrev pub digit_value : ℕ → ℕ
digit_value c =
    if leb b'0' c && leb c b'9'
    then c - b'0'
    else if leb b'A' c && leb c b'F'
    then c - b'A' + 10
    else 16

digit_value-octal_char : (d : ℕ) → d < 8 → digit_value (octal_char d) ≡ d
unfolding octal_char
digit_value-octal_char d h = ground arith

digit_value-hex_char : (d : ℕ) → d < 16 → digit_value (hex_char d) ≡ d
unfolding hex_char
digit_value-hex_char d h = ground arith

-- Digits written as characters are read back.
read_back :
    {b : ℕ} (char : ℕ → ℕ)
    → ((d : ℕ) → d < b → digit_value (char d) ≡ d)
    → (ds : List ℕ) → All (λ d. d < b) ds
    → map digit_value (map char ds) ≡ ds
read_back char reads [] h = refl
read_back char reads (d ∷ ds) (h, hs) = ap₂ ◌∷◌ (reads d h) (read_back char reads ds hs)

length-map : (f : ℕ → ℕ) (ds : List ℕ) → length (map f ds) ≡ length ds
length-map f [] = refl
length-map f (d ∷ ds) = ap suc (length-map f ds)

-- `%o` prints the octal numeral of any 32-bit word, with no sign and no padding, and returns the
-- number of its characters; but for 0 it prints nothing. The characters are digits from 0 to 7.
pub print_octal_lem :
    (uu width pad : ℕ)
    → uu < 2 ^ 32
    → (cs : List ℕ) × IsNumeral 8 uu (map digit_value cs)
      × (whisper_print_int uu width pad 8 ≡ printed (length cs) cs)
      × ((uu ≢ 0) ⊎ (cs ≡ []))
unfolding whisper_print_int
print_octal_lem uu width pad h =
    let (ds, found, numeral) = octal-IsNumeral uu h in
    (
      map octal_char ds,
      subst (IsNumeral 8 uu) (sym (read_back octal_char digit_value-octal_char ds numeral.digits))
          numeral,
      ground (arith, found, length-map octal_char ds),
      zero_or_not uu λ z. cc octal_zero,
    )

-- `%x` prints the hexadecimal numeral of any 32-bit word, with no padding, and returns the number of its
-- characters; for 0 it prints one 0. The characters are digits from 0 to 9 and capitals from A to F.
pub print_hex_lem :
    (uu width pad : ℕ)
    → uu < 2 ^ 32
    → (cs : List ℕ) × IsNumeral 16 uu (map digit_value cs)
      × (whisper_print_int uu width pad 16 ≡ printed (length cs) cs)
      × ((uu ≢ 0) ⊎ (cs ≡ b'0' ∷ []))
unfolding whisper_print_int
print_hex_lem uu width pad h =
    let (ds, found, numeral) = hex-IsNumeral uu h in
    (
      map hex_char ds,
      subst (IsNumeral 16 uu) (sym (read_back hex_char digit_value-hex_char ds numeral.digits))
          numeral,
      ground (arith, found, length-map hex_char ds),
      zero_or_not uu λ z. hex_text z found,
    )
  where
    hex_text :
        {uu : ℕ} {ds : List ℕ} → uu ≡ 0 → hex_digits uu ≡ some ds → map hex_char ds ≡ b'0' ∷ []
    hex_text z found = unfold hex_char in ground (arith, hex_zero)
