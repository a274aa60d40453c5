-- ===== src/Printf/Tests.antt =====
-- Runs of the printing functions and of the counter on concrete inputs.
use caliptra_ss.Base.{
  true, false, ℕ, ◌+◌, ◌^◌, ◌≤◌, ◌<◌, ◌≡◌, ◌≢◌, ◌⊎◌, refl, some, [], ◌∷◌, ◌++◌, arith, length, map,
  List, codes, leb, if◌then◌else◌, ◌-◌,
}
use caliptra_ss.Printf.Number.{
  printed, undefined, padding, whisper_print_unsigned, whisper_print_decimal, whisper_print_int,
}
use caliptra_ss.Printf.Number.Decimal
use caliptra_ss.Printf.Number.Decimal.{print_unsigned_lem, print_decimal_lem, print_decimal_least}
use caliptra_ss.Printf.Number.Power
use caliptra_ss.Printf.Number.Power.{digit_value, print_octal_lem, print_hex_lem}
use caliptra_ss.Printf.Format.{word, append_printed, printf, read_width}
use caliptra_ss.Printf.Laws.{printf-text, printf-overrun}
use caliptra_ss.Printf.Pieces.{Piece, plain, percent, conversion, unsigned, hexadecimal}
use caliptra_ss.Printf.Width.{printf-whisper_print_unsigned}
use caliptra_ss.Printf.Mcycle.{get_mcycle_from, mcycle, mcycleh, get_mcycle_sound, get_mcycle_lem}

print_unsigned_lem_example :
    (ds : List ℕ) × Decimal.IsNumeral 4000000000 ds
    × (length ds ≤ 10)
    × (whisper_print_unsigned 4000000000 12 b' '
        ≡ printed (length ds) (padding 12 (length ds) b' ' ++ ds))
print_unsigned_lem_example = print_unsigned_lem 4000000000 12 b' ' (omega arith)

print_decimal_lem_example :
    (ds : List ℕ) × (length ds ≤ 10)
    × (if leb (2 ^ 31) 4294967254
        then Decimal.IsNumeral (2 ^ 32 - 4294967254) ds
          × (whisper_print_decimal 4294967254 5 b' '
              ≡ printed (length ds + 1) (b'-' ∷ padding (5 - 1) (length ds) b' ' ++ ds))
        else Decimal.IsNumeral 4294967254 ds
          × (whisper_print_decimal 4294967254 5 b' '
              ≡ printed (length ds) (padding 5 (length ds) b' ' ++ ds)))
print_decimal_lem_example = print_decimal_lem 4294967254 5 b' ' (omega arith) (λ e. omega arith)

print_octal_lem_example :
    (cs : List ℕ) × Power.IsNumeral 8 511 (map digit_value cs)
    × (whisper_print_int 511 0 b' ' 8 ≡ printed (length cs) cs)
    × ((◌≢◌ {A = ℕ} 511 0) ⊎ (cs ≡ []))
print_octal_lem_example = print_octal_lem 511 0 b' ' (omega arith)

print_hex_lem_example :
    (cs : List ℕ) × Power.IsNumeral 16 0x10000818 (map digit_value cs)
    × (whisper_print_int 0x10000818 0 b' ' 16 ≡ printed (length cs) cs)
    × ((◌≢◌ {A = ℕ} 0x10000818 0) ⊎ (cs ≡ b'0' ∷ []))
print_hex_lem_example = print_hex_lem 0x10000818 0 b' ' (omega arith)

printf-text_example :
    printf (codes "bad " ++ codes "%x") (word 10 ∷ [])
    ≡ append_printed 4 (codes "bad ") (printf (codes "%x") (word 10 ∷ []))
printf-text_example =
    printf-text (codes "bad ") (codes "%x") (word 10 ∷ [])
      ((λ e. omega arith), ((λ e. omega arith), ((λ e. omega arith), ((λ e. omega arith), tt))))

-- "%08x: %u%%\n"
abbrev report : List Piece
report =
    conversion true (b'8' ∷ []) (hexadecimal 0x30030814)
    ∷ plain b':'
    ∷ plain b' '
    ∷ conversion false [] (unsigned 50)
    ∷ percent
    ∷ plain b'\n'
    ∷ []

printf-overrun_example : printf (codes "at " ++ b'%' ∷ b'0' ∷ b'8' ∷ []) (word 1 ∷ []) ≡ undefined
printf-overrun_example =
    printf-overrun (codes "at ") b'0' (b'8' ∷ []) (word 1 ∷ [])
      ((λ e. omega arith), ((λ e. omega arith), ((λ e. omega arith), tt)))
      ((omega arith, omega arith), ((omega arith, omega arith), tt))

-- A counter that is about to carry, read once in each cycle.
abbrev carrying : ℕ → ℕ
carrying t = if leb t 100 then 2 ^ 32 - 2 + t else 2 ^ 32 + 98

abbrev each : ℕ → ℕ
each n = n

grows : (t u : ℕ) → t ≤ u → carrying t ≤ carrying u
grows t u h = ground arith

fits : (t : ℕ) → carrying t < 2 ^ 64
fits t = ground arith

get_mcycle_sound_example : (m : ℕ) × (0 ≤ m) × (2 ^ 32 + 2 ≡ carrying (each m))
get_mcycle_sound_example =
    get_mcycle_sound carrying each (λ m n h. h) (λ t u h. grows t u h) (λ t. fits t) 2 0
      {r = 2 ^ 32 + 2} (unfold get_mcycle_from mcycle mcycleh in refl)

get_mcycle_lem_example :
    (m : ℕ) × (0 ≤ m) × (get_mcycle_from carrying each 2 0 ≡ some (carrying (each m)))
get_mcycle_lem_example =
    get_mcycle_lem carrying each (λ m n h. h) (λ t u h. grows t u h) (λ t. fits t) 0 (omega arith)

printf-whisper_print_unsigned_example :
    (ds : List ℕ) × (whisper_print_unsigned 12 0 b' ' ≡ printed (length ds) ds)
    × (read_width 0 (ds ++ b'u' ∷ []) ≡ some (12, b'u' ∷ []))
    × (printf (b'%' ∷ ds ++ b'u' ∷ []) (word 4000000000 ∷ [])
        ≡ whisper_print_unsigned 4000000000 12 b' ')
printf-whisper_print_unsigned_example =
    printf-whisper_print_unsigned 12 b' ' 4000000000 (λ e. omega arith) (omega arith) (omega arith)
