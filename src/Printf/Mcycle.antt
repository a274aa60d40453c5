-- ===== src/Printf/Mcycle.antt =====
-- `get_mcycle`: a 64-bit counter read in two halves of 32 bits. `count t` is the counter at time `t`;
-- each `csrr` reads it at a later time than the one before, and `time n` is when the `n`-th of them does.
use native.Mathlib.Decide.{ℕ_discrete}
use caliptra_ss.Base.{
  ℕ, zero, suc, ◌+◌, ◌*◌, ◌/◌, ◌%◌, ◌^◌, ◌≤◌, ◌<◌, ◌≡◌, ◌∙◌, Option, none, some, arith, ◌==◌,
  if◌then◌else◌, Bool-cases, ◌⊎◌, inl, inr, ap,
}

module _ (count : ℕ → ℕ) (time : ℕ → ℕ) where
  -- `csrr mcycle` and `csrr mcycleh`, as the `n`-th read.
  unfoldable pub mcycle : ℕ → ℕ
  mcycle n = count (time n) % 2 ^ 32

  unfoldable pub mcycleh : ℕ → ℕ
  mcycleh n = count (time n) / 2 ^ 32 % 2 ^ 32

  -- The loop from its `n`-th read on; the first argument bounds the rounds, and `none` means that
  -- they ran out. `(cycles << 32) | mcyclel` has disjoint halves.
  unfoldable pub get_mcycle_from : ℕ → ℕ → Option ℕ
  unfolding mcycle mcycleh
  get_mcycle_from zero n = none
  get_mcycle_from (suc rounds) n =
      let rest = get_mcycle_from rounds (n + 3) in
      if mcycleh n == mcycleh (n + 2)
      then some (mcycleh (n + 2) * 2 ^ 32 + mcycle (n + 1))
      else rest

  module _ (ordered : (m n : ℕ) → m ≤ n → time m ≤ time n)
      (grows : (t u : ℕ) → t ≤ u → count t ≤ count u) (fits : (t : ℕ) → count t < 2 ^ 64) where
    between :
        (a b c : ℕ)
        → a ≤ b
        → b ≤ c
        → c < 2 ^ 64
        → a / 2 ^ 32 % 2 ^ 32 ≡ c / 2 ^ 32 % 2 ^ 32
        → c / 2 ^ 32 % 2 ^ 32 * 2 ^ 32 + b % 2 ^ 32 ≡ b
    between a b c h k l e = omega arith

    -- While the counter does not wrap, what `get_mcycle` returns is the value that the counter had at
    -- one of its reads, whatever carries happened between the others.
    pub get_mcycle_sound :
        (rounds n : ℕ) {r : ℕ}
        → get_mcycle_from rounds n ≡ some r
        → (m : ℕ) × (n ≤ m) × (r ≡ count (time m))
    unfolding get_mcycle_from
    get_mcycle_sound zero n e = cc
    get_mcycle_sound (suc rounds) n {r} e = elim (Bool-cases (mcycleh n == mcycleh (n + 2))) [
      | inl same ↦ (
        n + 1,
        omega arith,
        ground (
          arith,
          same,
          between (count (time n)) (count (time (n + 1))) (count (time (n + 2)))
              (grows (time n) (time (n + 1)) (ordered n (n + 1) (omega arith)))
              (grows (time (n + 1)) (time (n + 2)) (ordered (n + 1) (n + 2) (omega arith)))
              (fits (time (n + 2))),
        ),
      )
      | inr other ↦
          let (m, l, q) = get_mcycle_sound rounds (n + 3) {r = r} (ground (arith, other)) in
          (m, omega arith, q)
    ]

    one_carry :
        (a c d f : ℕ)
        → a ≤ c
        → c ≤ d
        → d ≤ f
        → f < 2 ^ 64
        → f < a + 2 ^ 32
        → (a / 2 ^ 32 % 2 ^ 32 ≡ c / 2 ^ 32 % 2 ^ 32) ⊎ (d / 2 ^ 32 % 2 ^ 32 ≡ f / 2 ^ 32 % 2 ^ 32)
    one_carry a c d f h k l e w = elim (ℕ_discrete (a / 2 ^ 32 % 2 ^ 32) (c / 2 ^ 32 % 2 ^ 32)) [
      | yes same ↦ inl same
      | no other ↦ inr (omega arith)
    ]

    -- If the counter advances by less than 2 ^ 32 during six reads, two rounds are enough.
    pub get_mcycle_total :
        (n : ℕ)
        → count (time (n + 5)) < count (time n) + 2 ^ 32
        → (r : ℕ) × (get_mcycle_from 2 n ≡ some r)
    unfolding get_mcycle_from
    get_mcycle_total n slow = elim (Bool-cases (mcycleh n == mcycleh (n + 2))) [
      | inl same ↦ (mcycleh (n + 2) * 2 ^ 32 + mcycle (n + 1), rw same)
      | inr other ↦ (
        mcycleh (n + 3 + 2) * 2 ^ 32 + mcycle (n + 3 + 1),
        ground (
          arith,
          other,
          ap (λ (k : ℕ). count (time k)) (five n),
          one_carry (count (time n)) (count (time (n + 2))) (count (time (n + 3)))
              (count (time (n + 5)))
              (grows (time n) (time (n + 2)) (ordered n (n + 2) (omega arith)))
              (grows (time (n + 2)) (time (n + 3)) (ordered (n + 2) (n + 3) (omega arith)))
              (grows (time (n + 3)) (time (n + 5)) (ordered (n + 3) (n + 5) (omega arith)))
              (fits (time (n + 5))),
        ),
      )
    ]
      where
        five : (n : ℕ) → n + 3 + 2 ≡ n + 5
        five n = omega arith

    -- If the counter advances by less than 2 ^ 32 during six reads, `get_mcycle` returns, within two
    -- rounds, and what it returns is the value that the counter had at one of its reads.
    pub get_mcycle_lem :
        (n : ℕ)
        → count (time (n + 5)) < count (time n) + 2 ^ 32
        → (m : ℕ) × (n ≤ m) × (get_mcycle_from 2 n ≡ some (count (time m)))
    get_mcycle_lem n slow =
        let (r, e) = get_mcycle_total n slow in
        let (m, l, q) = get_mcycle_sound 2 n {r = r} e in (m, l, e ∙ ap (λ (k : ℕ). some k) q)
