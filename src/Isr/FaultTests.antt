-- ===== src/Isr/FaultTests.antt =====
-- Faults on concrete hardware.
use text.Mathlib.Text.{◌==◌ as str_eq}
use caliptra_ss.Base.{ℕ, ◌≡◌, arith, [], ◌∷◌, ◌==◌, if◌then◌else◌}
use caliptra_ss.Firmware.{Hw, Trace, done, store, put_stdout}
use caliptra_ss.Csr.Access.{CsrFile, csr_after}
use caliptra_ss.Isr.Exception.{ExcFlag, std_rv_mtvec_exception}
use caliptra_ss.Isr.Faults.{other_causes_kill}

-- Registers of a core that has taken a fault of a given cause at address 0x40000100.
abbrev fault : ℕ → CsrFile
fault cause r = if str_eq r "mcause" then cause else if str_eq r "mscause" then 1 else 0x40000100

abbrev flag : ExcFlag
flag = record { exception_hit = 0x50000000; mcause = 0x50000004; mscause = 0x50000008 }

-- Memory that gives back the last value stored at an address, and 0 elsewhere.
abbrev stored : Trace → ℕ → ℕ
stored [] addr = 0
stored (store a x ∷ t) addr = if a == addr then x else stored t addr
stored (_ ∷ t) addr = stored t addr

abbrev core : ℕ → Hw
core cause = record { csr_value = λ t r. csr_after t (fault cause) r; mem_value = stored }

-- An illegal instruction.
other_causes_kill_example :
    (t' : Trace) × (std_rv_mtvec_exception (core 2) flag []
      ≡ done tt (put_stdout 0xfc ∷ put_stdout 0x1 ∷ t'))
other_causes_kill_example =
    other_causes_kill (core 2) flag [] (λ e. omega arith) (λ e. omega arith) (λ e. omega arith)

-- A core whose mask of fatal errors reads as 0.
abbrev unmasked : ℕ → Hw
unmasked cause = record (core cause) {
  mem_value = λ t addr. if addr == 0x30030630 then 0 else stored t addr;
}
