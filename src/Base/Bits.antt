-- ===== src/Base/Bits.antt =====
-- A mask of one bit.
use native.Mathlib.Nat.{pow-suc, pow-succ', div-div-eq-div-mul, zero-div, mul_assoc}
use caliptra_ss.Base.{
  ℕ, zero, suc, ◌+◌, ◌*◌, ◌/◌, ◌%◌, ◌^◌, ◌≤◌, ◌≡◌, refl, ◌∙◌, ap, ap₂, sym, arith, min, bit_and,
}
use Prim.Native.Nat.{digits, bit_and-bitwise}

digits_zero : (n a : ℕ) → digits (λ b. zero) min n a 0 ≡ 0
digits_zero zero a = refl
digits_zero (suc n) zero = refl
digits_zero (suc n) (suc a) = omega (arith, digits_zero n (suc a / 2))

zero_bit : (p : ℕ) → 0 ≡ 0 / p % 2 * p
zero_bit p = omega (arith, zero-div p, ap (λ (q : ℕ). q % 2 * p) (zero-div p))

halve : (p : ℕ) → p * 2 / 2 ≡ p
halve p = omega arith

even : (p : ℕ) → p * 2 % 2 ≡ 0
even p = omega arith

last : (b p m : ℕ) → b * p * 2 + min m 0 ≡ b * (p * 2)
last b p m = omega (arith, mul_assoc b p 2)

digits_one_bit : (k n a : ℕ) → a ≤ n → digits (λ b. zero) min n a (2 ^ k) ≡ a / 2 ^ k % 2 * 2 ^ k
digits_one_bit k zero zero h = zero_bit (2 ^ k)
digits_one_bit k zero (suc a) h = omega arith
digits_one_bit k (suc n) zero h = zero_bit (2 ^ k)
digits_one_bit zero (suc n) (suc a) h = omega (arith, digits_zero n (suc a / 2))
digits_one_bit (suc k) (suc n) (suc a) h =
    ap₂ (λ (p q : ℕ). digits (λ b. zero) min n (suc a / 2) p * 2 + min (suc a % 2) q)
      (ap (λ (p : ℕ). p / 2) (pow-suc 2 k) ∙ halve (2 ^ k))
      (ap (λ (p : ℕ). p % 2) (pow-suc 2 k) ∙ even (2 ^ k))
    ∙ ap (λ (d : ℕ). d * 2 + min (suc a % 2) 0) (digits_one_bit k n (suc a / 2) (omega arith))
    ∙ last (suc a / 2 / 2 ^ k % 2) (2 ^ k) (suc a % 2)
    ∙ ap₂ (λ (q p : ℕ). q % 2 * p)
        (div-div-eq-div-mul (suc a) 2 (2 ^ k) ∙ ap (λ (p : ℕ). suc a / p) (sym (pow-succ' 2 k)))
        (sym (pow-suc 2 k))

-- `a & (1 << k)` is bit `k` of `a`, in its place.
pub bit_and_one_bit : (a k : ℕ) → bit_and a (2 ^ k) ≡ a / 2 ^ k % 2 * 2 ^ k
bit_and_one_bit a k = (λ i. bit_and-bitwise a (2 ^ k) i) ∙ digits_one_bit k a a (omega arith)

shift : (p m d : ℕ) → m ≤ 1 → (d * 2 + m) / 2 ≡ d
shift p m d h = omega arith

div_suc : (k a : ℕ) → a / 2 ^ suc k ≡ a / 2 / 2 ^ k
div_suc k a = ap (λ (p : ℕ). a / p) (pow-succ' 2 k) ∙ sym (div-div-eq-div-mul a 2 (2 ^ k))

digits_clear : (k n a b : ℕ) → b / 2 ^ k % 2 ≡ 0 → digits (λ b. zero) min n a b / 2 ^ k % 2 ≡ 0
digits_clear k zero a b h = omega (arith, zero-div (2 ^ k))
digits_clear k (suc n) zero b h = omega (arith, zero-div (2 ^ k))
digits_clear zero (suc n) (suc a) b h = omega (arith, h)
digits_clear (suc k) (suc n) (suc a) b h =
    ap (λ (q : ℕ). q % 2)
      (div_suc k (digits (λ b. zero) min n (suc a / 2) (b / 2) * 2 + min (suc a % 2) (b % 2))
        ∙ ap (λ (q : ℕ). q / 2 ^ k)
            (shift k (min (suc a % 2) (b % 2)) (digits (λ b. zero) min n (suc a / 2) (b / 2))
              (omega arith)))
    ∙ digits_clear k n (suc a / 2) (b / 2) (ap (λ (q : ℕ). q % 2) (sym (div_suc k b)) ∙ h)

-- `a & b` has no bit that `b` has not.
pub bit_and_clear : (a b k : ℕ) → b / 2 ^ k % 2 ≡ 0 → bit_and a b / 2 ^ k % 2 ≡ 0
bit_and_clear a b k h =
    ap (λ (q : ℕ). q / 2 ^ k % 2) (λ i. bit_and-bitwise a b i) ∙ digits_clear k a a b h
