-- ===== src/Isr/Context.antt =====
-- What the handlers leave in the registers.
use Prim.Native.String.{String}
use caliptra_ss.Base.{ℕ, ◌+◌, ◌/◌, ◌%◌, ◌^◌, ◌≡◌, refl, arith, ◌∷◌, bit_and, bit_or, ap}
use caliptra_ss.Firmware.{
  Hw, Trace, Run, Fw, done, hung, csrr, csrrw, csrrs, csrrc, load, store, put_stdout,
}
use caliptra_ss.Csr.Access.{CsrFile, csr_after, clear_bits}
use caliptra_ss.Isr.Handler.{nonstd_veer_isr, std_rv_isr, mstatus_mie, mstatus_saved, mie_saved}

-- Every read of a register gives what the instructions before it have left there.
abbrev pub IsPlain : Hw → CsrFile → Type 0
IsPlain hw f = (t : Trace) (r : String) → hw.csr_value t r ≡ csr_after t f r

-- `t₀` is the trace with which the service starts, `t₁` the one with which it ends, and `t'` the
-- handler's own.
pub record Handled (hw : Hw) (f : CsrFile) (service : Fw (Unit {0})) (t t₀ t₁ t' : Trace)
    : Type 0 where
  pub served : service t₀ ≡ done tt t₁
  pub threshold_raised : csr_after t₀ f "meicurpl" ≡ csr_after t f "meicidpl"
  pub nesting_enabled : csr_after t₀ f "mstatus" ≡ bit_or (csr_after t f "mstatus") mstatus_mie
  pub mepc_restored : csr_after t' f "mepc" ≡ csr_after t f "mepc"
  pub threshold_restored : csr_after t' f "meicurpl" ≡ csr_after t f "meicurpl"
  pub mstatus_after :
      csr_after t' f "mstatus"
      ≡ bit_or
          (clear_bits (csr_after t₁ f "mstatus") mstatus_mie)
          (bit_and (csr_after t f "mstatus") mstatus_saved)

-- The events before the service, and after it.
unfoldable pub opening : Hw → ℕ → Trace → Trace
opening hw intr_count t =
    let saved =
      csrr "mie"
      ∷ csrr "mstatus"
      ∷ csrr "mepc"
      ∷ csrr "meicurpl"
      ∷ csrr "meicidpl"
      ∷ put_stdout 0xfb
      ∷ t in
    let nested =
      csrrs "mstatus" mstatus_mie
      ∷ csrrw "meicurpl" (hw.csr_value (put_stdout 0xfb ∷ t) "meicidpl")
      ∷ saved in
    store intr_count ((hw.mem_value nested intr_count + 1) % 2 ^ 32) ∷ load intr_count ∷ nested

unfoldable pub closing : Hw → Trace → Trace → Trace
closing hw t t₁ =
    let read_1 = csrr "meicidpl" ∷ put_stdout 0xfb ∷ t in
    let read_2 = csrr "meicurpl" ∷ read_1 in
    let read_3 = csrr "mepc" ∷ read_2 in
    let read_4 = csrr "mstatus" ∷ read_3 in
    put_stdout 0xfc
    ∷ csrrs "mie" (bit_and (hw.csr_value read_4 "mie") mie_saved)
    ∷ csrrs "mstatus" (bit_and (hw.csr_value read_3 "mstatus") mstatus_saved)
    ∷ csrrw "mepc" (hw.csr_value read_2 "mepc")
    ∷ csrrw "meicurpl" (hw.csr_value read_1 "meicurpl")
    ∷ csrrc "mstatus" mstatus_mie
    ∷ t₁

pub nonstd_veer_isr_runs :
    (hw : Hw) (intr_count : ℕ) (service : Fw (Unit {0})) (t t₁ : Trace)
    → service (opening hw intr_count t) ≡ done tt t₁
    → nonstd_veer_isr hw intr_count service t ≡ done tt (closing hw t t₁)
unfolding nonstd_veer_isr opening closing
nonstd_veer_isr_runs hw intr_count service t t₁ e =
    ap
      (λ (r : Run (Unit {0})). elim r as (λ r. Run (Unit {0})) [
        | done a s ↦ done tt (closing hw t s)
        | hung s ↦ hung s
      ])
      e

-- Where the registers read as the instructions have left them, a handler of any source returns if its
-- service does. The service starts with the priority
-- threshold at the level of the interrupt and with interrupts enabled. Whatever the service, and
-- the handlers nested in it, do to the registers, the handler then gives mepc and the threshold the
-- values that they had when it began, and mstatus as the service leaves it, with the interrupt
-- enable cleared and those of the bits MPIE and
-- MPP set again that were set when it began.
pub nonstd_veer_isr-Handled :
    (hw : Hw) (f : CsrFile) (intr_count : ℕ) (service : Fw (Unit {0})) (t : Trace)
    → IsPlain hw f
    → ((s : Trace) → (s' : Trace) × (service s ≡ done tt s'))
    → (t₀ t₁ t' : Trace) × (nonstd_veer_isr hw intr_count service t ≡ done tt t')
      × Handled hw f service t t₀ t₁ t'
unfolding opening closing
nonstd_veer_isr-Handled hw f intr_count service t plain ends =
    let (t₁, e) = ends (opening hw intr_count t) in
    (
      opening hw intr_count t,
      t₁,
      closing hw t t₁,
      nonstd_veer_isr_runs hw intr_count service t t₁ e,
      record {
        served = e;
        threshold_raised = plain (put_stdout 0xfb ∷ t) "meicidpl";
        nesting_enabled = refl;
        mepc_restored = plain (csrr "meicurpl" ∷ csrr "meicidpl" ∷ put_stdout 0xfb ∷ t) "mepc";
        threshold_restored = plain (csrr "meicidpl" ∷ put_stdout 0xfb ∷ t) "meicurpl";
        mstatus_after =
            ap
              (λ (m : ℕ).
                bit_or (clear_bits (csr_after t₁ f "mstatus") mstatus_mie)
                  (bit_and m mstatus_saved))
              (plain (csrr "mepc" ∷ csrr "meicurpl" ∷ csrr "meicidpl" ∷ put_stdout 0xfb ∷ t)
                "mstatus");
      },
    )

-- On an interrupt of any cause `std_rv_isr` does nothing but mark its start and its end: no handler
-- is called.
pub std_rv_isr_no_dispatch :
    (hw : Hw) (call_isr : ℕ → Fw (Unit {0})) (t : Trace)
    → hw.csr_value (put_stdout 0xfb ∷ t) "mcause" / 2 ^ 31 % 2 ≡ 1
    → std_rv_isr hw call_isr t ≡ done tt (put_stdout 0xfc ∷ csrr "mcause" ∷ put_stdout 0xfb ∷ t)
unfolding std_rv_isr
std_rv_isr_no_dispatch hw call_isr t h = ground arith
