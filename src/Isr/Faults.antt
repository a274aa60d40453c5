-- ===== src/Isr/Faults.antt =====
-- How the exception handler ends.
use caliptra_ss.Base.{◌/◌, ◌%◌, ◌^◌, ◌≡◌, ◌≢◌, arith, ◌∷◌, ◌==◌, Bool-cases, inl, inr}
use caliptra_ss.Firmware.{Hw, Trace, done, csrr, store, put_stdout, fence_i}
use caliptra_ss.Isr.Exception.{ExcFlag, std_rv_mtvec_exception}

-- On any cause but an access fault, interrupts included, the handler returns, and the last bytes that it
-- sends are the one that ends the simulation with an error and the mark of its end.
pub other_causes_kill :
    (hw : Hw) (exc_flag : ExcFlag) (t : Trace)
    → hw.csr_value (put_stdout 0xfb ∷ t) "mcause" ≢ 1
    → hw.csr_value (put_stdout 0xfb ∷ t) "mcause" ≢ 5
    → hw.csr_value (put_stdout 0xfb ∷ t) "mcause" ≢ 7
    → (t' : Trace) × (std_rv_mtvec_exception hw exc_flag t
        ≡ done tt (put_stdout 0xfc ∷ put_stdout 0x1 ∷ t'))
unfolding std_rv_mtvec_exception
other_causes_kill hw exc_flag t a b c =
    let cause = hw.csr_value (put_stdout 0xfb ∷ t) "mcause" in
    let t₁ : Trace = csrr "mcause" ∷ put_stdout 0xfb ∷ t in
    elim (Bool-cases (cause / 2 ^ 31 % 2 == 1)) [
      | inl interrupt ↦ (put_stdout 0x1 ∷ t₁, ground (arith, interrupt))
      | inr exception ↦ (
        csrr "mtval"
            ∷ csrr "mepc"
            ∷ store exc_flag.mscause (hw.csr_value t₁ "mscause")
            ∷ store exc_flag.mcause cause
            ∷ store exc_flag.exception_hit 1
            ∷ fence_i
            ∷ put_stdout 0xe4
            ∷ csrr "mscause"
            ∷ t₁,
        ground (arith, exception, a, b, c),
      )
    ]
