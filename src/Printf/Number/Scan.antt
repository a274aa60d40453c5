-- ===== src/Printf/Number/Scan.antt =====
-- The scan from the highest digit down, for any digit width: the digits that it yields spell the
-- number.
use native.Mathlib.Nat.{pow-suc, div-div-eq-div-mul, div-add-mod', pow-zero, mod-lt}
use caliptra_ss.Base.{
  ℕ, zero, suc, ◌+◌, ◌-◌, ◌*◌, ◌/◌, ◌%◌, ◌^◌, ◌≤◌, ◌<◌, ◌≡◌, ◌≢◌, sym, subst, ◌∙◌, ap, ◌⊎◌, inl,
  inr, Bool, true, false, ◌||◌, not, Option, some, List, [], ◌∷◌, arith, ◌==◌, All, Bool-cases,
}
use caliptra_ss.Printf.Digits.{scan_digits, prepend}

-- The number that digits spell behind `n` in base `b`.
abbrev pub value_in : ℕ → ℕ → List ℕ → ℕ
value_in b n [] = n
value_in b n (d ∷ ds) = value_in b (n * b + d) ds

module _ (step top : ℕ) (shown : ℕ → Bool) where
  scan_stop :
      (rounds ii : ℕ) (flag : Bool) (uu : ℕ)
      → top < ii
      → scan_digits step top shown (suc rounds) ii flag uu ≡ some []
  unfolding scan_digits
  scan_stop rounds ii flag uu h = ground arith

  scan_step :
      (rounds ii : ℕ) (flag : Bool) (uu : ℕ)
      → ii ≤ top
      → let digit = uu / 2 ^ ii % 2 ^ step in
        let print = flag || not (digit == 0) || shown ii in
        scan_digits step top shown (suc rounds) ii flag uu
        ≡ prepend print digit
            (scan_digits step top shown rounds ((ii + 2 ^ 8 - step) % 2 ^ 8) print uu)
  unfolding scan_digits
  scan_step rounds ii flag uu h = ground arith

  -- The same at named values of the power and of the next position.
  scan_step_at :
      (rounds ii j p : ℕ) (flag : Bool) (uu : ℕ)
      → ii ≤ top
      → (ii + 2 ^ 8 - step) % 2 ^ 8 ≡ j
      → 2 ^ ii ≡ p
      → let digit = uu / p % 2 ^ step in
        let print = flag || not (digit == 0) || shown ii in
        scan_digits step top shown (suc rounds) ii flag uu
        ≡ prepend print digit (scan_digits step top shown rounds j print uu)
  scan_step_at rounds ii j p flag uu h ej ep = rw (← ej, ← ep) (scan_step rounds ii flag uu h)

div_one : (n p : ℕ) → p ≡ 1 → n / p ≡ n
div_one n p e = rw e (omega arith)

-- A digit that is not alone is not a 0 in front.
abbrev pub NoLeadingZero : List ℕ → Type 0
NoLeadingZero [] = Unit
NoLeadingZero (d ∷ []) = Unit
NoLeadingZero (d ∷ e ∷ ds) = d ≢ 0

-- What the rounds behind a digit yield: `q` is the number down to that digit, and `flag` says whether
-- a digit has been printed.
pub record Spelt (b q uu : ℕ) (flag : Bool) (r : Option (List ℕ)) : Type 0 where
  pub ds : List ℕ
  pub found : r ≡ some ds
  pub value : value_in b q ds ≡ uu
  pub digits : All (λ d. d < b) ds
  pub lead : flag ≡ false → NoLeadingZero ds

skipped :
    (flag shown : Bool) (d : ℕ) → (flag || not (d == 0) || shown) ≡ false → (flag ≡ false) × (d ≡ 0)
skipped flag shown d e = ground arith

printed_why :
    (flag shown : Bool) (d : ℕ)
    → (flag || not (d == 0) || shown) ≡ true
    → flag ≡ false
    → (d ≢ 0) ⊎ (shown ≡ true)
printed_why flag shown d e f = ground arith

whole_zero : (b q : ℕ) → q / b ≡ 0 → q % b ≡ 0 → q / b ≡ q
whole_zero b q e r = e ∙ sym (sym (div-add-mod' q b) ∙ zero_sum (q / b) (q % b) b e r)
  where
    zero_sum : (x y b : ℕ) → x ≡ 0 → y ≡ 0 → x * b + y ≡ 0
    zero_sum x y b e r = rw (e, r) (omega arith)

none_yet :
    (flag shown : Bool) (q b : ℕ)
    → (flag ≡ false → q / b ≡ 0)
    → (flag || not (q % b == 0) || shown) ≡ false
    → q ≡ 0
none_yet flag shown q b f e =
    let (f0, d0) = skipped flag shown (q % b) e in sym (whole_zero b q (f f0) d0) ∙ f f0

NoLeadingZero-cons : (d : ℕ) (ds : List ℕ) → (d ≢ 0) ⊎ (ds ≡ []) → NoLeadingZero (d ∷ ds)
NoLeadingZero-cons d [] h = tt
NoLeadingZero-cons d (e ∷ ds) (inl h) = h
NoLeadingZero-cons d (e ∷ ds) (inr h) = cc

same_list : (ds : List ℕ) (r : Option (List ℕ)) → r ≡ some ds → r ≡ some [] → ds ≡ []
same_list ds r e h = cc

-- One digit more. A digit that is skipped is a 0 in front of the number.
print_digit :
    (b q uu : ℕ) (flag shown : Bool) (r : Option (List ℕ))
    → 0 < b
    → (flag ≡ false → q / b ≡ 0)
    → (shown ≡ true → r ≡ some [])
    → Spelt b q uu (flag || not (q % b == 0) || shown) r
    → Spelt b (q / b) uu flag (prepend (flag || not (q % b == 0) || shown) (q % b) r)
print_digit b q uu flag shown r pos f last s =
    elim (Bool-cases (flag || not (q % b == 0) || shown)) [
      | inl yes_print ↦ record {
        ds = q % b ∷ s.ds;
        found = rw (yes_print, s.found);
        value = ap (λ (n : ℕ). value_in b n s.ds) (div-add-mod' q b) ∙ s.value;
        digits = (mod-lt q pos, s.digits);
        lead = λ f0.
            NoLeadingZero-cons (q % b) s.ds (elim (printed_why flag shown (q % b) yes_print f0) [
              | inl nonzero ↦ inl nonzero
              | inr alone ↦ inr (same_list s.ds r s.found (last alone))
            ]);
      }
      | inr no_print ↦
          let (f0, d0) = skipped flag shown (q % b) no_print in
          record {
            ds = s.ds;
            found = rw (no_print, s.found);
            value = ap (λ (n : ℕ). value_in b n s.ds) (whole_zero b q (f f0) d0) ∙ s.value;
            digits = s.digits;
            lead = λ _. s.lead no_print;
          }
    ]

-- A scan of at most `count` digits: `place k` is the value of `ii` before the last `k` rounds.
module _ (step top count : ℕ) (shown : ℕ → Bool) (place : ℕ → ℕ) (stops : top < place 0)
    (inside : (k : ℕ) → k < count → place (suc k) ≤ top)
    (next : (k : ℕ) → k < count → (place (suc k) + 2 ^ 8 - step) % 2 ^ 8 ≡ place k)
    (power : (k : ℕ) → k < count → 2 ^ place (suc k) ≡ (2 ^ step) ^ k)
    (last : (k : ℕ) → k < count → shown (place (suc k)) ≡ true → k ≡ 0) (base : 0 < 2 ^ step) where
  ends :
      (k : ℕ) (flag : Bool) (uu : ℕ)
      → k < count
      → shown (place (suc k)) ≡ true
      → scan_digits step top shown (suc k) (place k) flag uu ≡ some []
  ends k flag uu h e =
      scan_stop step top shown k (place k) flag uu
        (subst (λ (n : ℕ). top < place n) (sym (last k h e)) stops)

  pub scan_lem :
      (k uu : ℕ) (flag : Bool)
      → k ≤ count
      → (flag ≡ false → uu / (2 ^ step) ^ k ≡ 0)
      → Spelt
          (2 ^ step)
          (uu / (2 ^ step) ^ k)
          uu
          flag
          (scan_digits step top shown (suc k) (place k) flag uu)
  scan_lem zero uu flag h f = record {
    ds = [];
    found = scan_stop step top shown 0 (place 0) flag uu stops;
    value = div_one uu ((2 ^ step) ^ 0) (pow-zero (2 ^ step));
    digits = tt;
    lead = λ _. tt;
  }
  scan_lem (suc k) uu flag h f =
      let b = 2 ^ step in
      let q = uu / b ^ k in
      let ii = place (suc k) in
      let print = flag || not (q % b == 0) || shown ii in
      let above : q / b ≡ uu / b ^ suc k =
        div-div-eq-div-mul uu (b ^ k) b ∙ ap (λ (n : ℕ). uu / n) (sym (pow-suc b k)) in
      let below =
        scan_lem k uu print (omega arith)
          (λ e. none_yet flag (shown ii) q b (λ g. above ∙ f g) e) in
      rw
        (
          ← above,
          scan_step_at step top shown (suc k) ii (place k) (b ^ k) flag uu (inside k h) (next k h)
              (power k h),
        )
        (print_digit b q uu flag (shown ii) _ base (λ e. above ∙ f e) (ends k print uu h) below)
