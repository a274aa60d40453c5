-- ===== src/Isr/Serviced.antt =====
-- Which bits a service routine clears.
use Prim.Native.String.{String}
use native.Mathlib.Nat.{one-le-pow}
use caliptra_ss.Base.{
  ℕ, ◌≤◌, ◌*◌, ◌/◌, ◌%◌, ◌^◌, ◌≡◌, ◌≢◌, ◌⊎◌, inl, inr, refl, subst, ap, arith, Bool-cases, List, [],
  ◌∷◌, ◌++◌, append_assoc, bit_and, ◌==◌, true, false, All, All-append,
}
use caliptra_ss.Base.Bits.{bit_and_one_bit}
use caliptra_ss.Firmware.{Hw, Trace, Event, done, load, store}
use caliptra_ss.Isr.Service.{acknowledge, service, service_soc_ifc_error_intr}

abbrev pub Occurs : {A : Type 0} → A → List A → Type 0
Occurs x [] = ⊥
Occurs x (y ∷ ys) = (y ≡ x) ⊎ Occurs x ys

Occurs-front : {A : Type 0} (x : A) (xs ys : List A) → Occurs x xs → Occurs x (xs ++ ys)
Occurs-front x [] ys o = elim o [ ]
Occurs-front x (z ∷ xs) ys (inl e) = inl e
Occurs-front x (z ∷ xs) ys (inr o) = inr (Occurs-front x xs ys o)

Occurs-last : {A : Type 0} (x : A) (xs : List A) → Occurs x (xs ++ x ∷ [])
Occurs-last x [] = inl refl
Occurs-last x (z ∷ xs) = inr (Occurs-last x xs)

-- A store to `reg` of a mask that `sts` has a bit of.
abbrev pub IsAck : ℕ → ℕ → Event → Type 0
IsAck reg sts e = (mask : ℕ) × (e ≡ store reg mask) × (bit_and sts mask ≢ 0)

-- `events`, newest first, clear the bits of `sts` that are in `masks`, and no others.
pub record Clears (reg sts : ℕ) (masks : List ℕ) (events : Trace) : Type 0 where
  pub only : All (IsAck reg sts) events
  pub each :
      (k : ℕ) → Occurs (2 ^ k) masks → sts / 2 ^ k % 2 ≡ 1 → Occurs (store reg (2 ^ k)) events

bit_and_set : (sts mask k : ℕ) → mask ≡ 2 ^ k → sts / 2 ^ k % 2 ≡ 1 → bit_and sts mask ≢ 0
bit_and_set sts mask k e bit z = omega (
  arith,
  positive k,
  bit_and_one_bit sts k,
  ap (λ (b : ℕ). b * 2 ^ k) bit,
  ap (λ (m : ℕ). bit_and sts m) e,
)
  where
    positive : (k : ℕ) → 1 ≤ 2 ^ k
    positive k = one-le-pow k 2 (omega arith)

module _ (reg sts mask : ℕ) (masks : List ℕ) {events : Trace}
    (rest : Clears reg sts masks events) where
  -- The bit of `mask` is not there: nothing is stored for it.
  Clears-skip : (bit_and sts mask == 0) ≡ true → Clears reg sts (mask ∷ masks) events
  Clears-skip none_there = record { only = rest.only; each = each }
    where
      each :
          (k : ℕ)
          → Occurs (2 ^ k) (mask ∷ masks)
          → sts / 2 ^ k % 2 ≡ 1
          → Occurs (store reg (2 ^ k)) events
      each k (inl e) bit = ground (arith, none_there, bit_and_set sts mask k e bit)
      each k (inr o) bit = rest.each k o bit

  -- It is there, and is stored first.
  Clears-store :
      (bit_and sts mask == 0) ≡ false
      → Clears reg sts (mask ∷ masks) (events ++ store reg mask ∷ [])
  Clears-store there = record {
    only =
        All-append (IsAck reg sts) events (store reg mask ∷ []) rest.only
          ((mask, refl, λ z. ground (arith, there, z)), tt);
    each = each;
  }
    where
      each :
          (k : ℕ)
          → Occurs (2 ^ k) (mask ∷ masks)
          → sts / 2 ^ k % 2 ≡ 1
          → Occurs (store reg (2 ^ k)) (events ++ store reg mask ∷ [])
      each k (inl e) bit =
          subst (λ (m : ℕ). Occurs (store reg m) (events ++ store reg mask ∷ [])) e
            (Occurs-last (store reg mask) events)
      each k (inr o) bit =
          Occurs-front (store reg (2 ^ k)) events (store reg mask ∷ []) (rest.each k o bit)

pub acknowledge-Clears :
    (reg sts : ℕ) (masks : List ℕ) (t : Trace)
    → (events : Trace) × (acknowledge reg sts masks t ≡ done tt (events ++ t))
      × Clears reg sts masks events
unfolding acknowledge
acknowledge-Clears reg sts [] t = ([], refl, record { only = tt; each = λ k o. elim o [ ] })
acknowledge-Clears reg sts (mask ∷ masks) t = elim (Bool-cases (bit_and sts mask == 0)) [
  | inl none_there ↦
      let (events, runs, rest) = acknowledge-Clears reg sts masks t in
      (events, ground (arith, none_there, runs), Clears-skip reg sts mask masks rest none_there)
  | inr there ↦
      let (events, runs, rest) = acknowledge-Clears reg sts masks (store reg mask ∷ t) in
      (
        events ++ store reg mask ∷ [],
        ground (arith, there, runs, append_assoc events (store reg mask ∷ []) t),
        Clears-store reg sts mask masks rest there,
      )
]

-- With an interrupt pending, a service routine returns after one read of its register and stores to
-- it alone: it stores each of its one-bit masks whose bit is pending, and no mask without a pending
-- bit.
pub service-Clears :
    (hw : Hw) (reg : ℕ) (masks : List ℕ) (name : String) (t : Trace)
    → hw.mem_value t reg ≢ 0
    → (events : Trace) × (service hw reg masks name t ≡ done tt (events ++ load reg ∷ t))
      × Clears reg (hw.mem_value t reg) masks events
unfolding service
service-Clears hw reg masks name t pending =
    let (events, runs, clears) = acknowledge-Clears reg (hw.mem_value t reg) masks (load reg ∷ t) in
    (events, ground (arith, runs, pending), clears)

-- The routine for SOC_IFC errors does not know the bits above bit 5, such as those of the two
-- watchdog timers: with such bits alone pending it returns and has cleared nothing.
pub service_soc_ifc_error_timers :
    (hw : Hw) (t : Trace)
    → hw.mem_value t 0x30030814 ≢ 0
    → hw.mem_value t 0x30030814 % 2 ^ 6 ≡ 0
    → service_soc_ifc_error_intr hw t ≡ done tt (load 0x30030814 ∷ t)
unfolding service_soc_ifc_error_intr service acknowledge
service_soc_ifc_error_timers hw t pending high =
    let bit : (k : ℕ) → bit_and sts (2 ^ k) ≡ sts / 2 ^ k % 2 * 2 ^ k = bit_and_one_bit sts in
    ground (arith, bit 0, bit 1, bit 2, bit 3, bit 4, bit 5)
  where
    sts : ℕ
    sts = hw.mem_value t 0x30030814
