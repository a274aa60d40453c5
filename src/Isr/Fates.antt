-- ===== src/Isr/Fates.antt =====
-- What may become of the program on an exception.
pub mod Cases
use caliptra_ss.Base.{
  ℕ, suc, ◌+◌, ◌/◌, ◌%◌, ◌^◌, ◌≡◌, refl, ap, sym, subst, ◌∙◌, arith, List, [], ◌∷◌, ◌==◌, Bool,
  true, false, Bool-cases, inl, inr, if◌then◌else◌, Option, none, some,
}
use caliptra_ss.Firmware.{
  Hw, Trace, Run, Fw, done, hung, csrr, csrrw, load, store, put_stdout, fence_i, branch,
}
use caliptra_ss.Base.Bits.{bit_and_one_bit}
use caliptra_ss.Csr.Access.{CsrFile, csr_after}
use caliptra_ss.Isr.Context.{IsPlain}
use caliptra_ss.Isr.Exception.{
  ExcFlag, load_access_fault, store_access_fault, instruction_access_fault, std_rv_mtvec_exception,
  kill,
}

-- What was stored last at an address.
abbrev pub last_stored : ℕ → Trace → Option ℕ
last_stored addr [] = none
last_stored addr (store a x ∷ t) = if a == addr then some x else last_stored addr t
last_stored addr (_ ∷ t) = last_stored addr t

-- How often the byte was sent that ends the simulation with an error.
abbrev pub errors : Trace → ℕ
errors [] = 0
errors (put_stdout c ∷ t) = if c == 0x1 then suc (errors t) else errors t
errors (_ ∷ t) = errors t

-- The registers read as the instructions have left them, and `exc_flag.mscause` as it was stored last.
pub record IsFaithful (hw : Hw) (f : CsrFile) (exc_flag : ExcFlag) : Type 0 where
  pub plain : IsPlain hw f
  pub kept :
      (t : Trace) (x : ℕ)
      → last_stored exc_flag.mscause t ≡ some x
      → hw.mem_value t exc_flag.mscause ≡ x

-- The program goes on behind the instruction, or with it; it waits for a reset; or the simulation ends.
pub data Fate : Type 0 where
  skips repeats waits dies : Fate

-- Only an uncorrectable error of a memory, which has the detail 1, does not end the simulation; that of an
-- instruction fetch ends it too where it is masked as a fatal error.
abbrev pub fate_of : (cause detail masked : ℕ) → Fate
fate_of cause detail masked =
    if detail == 1
    then (if cause == 5
        then skips
        else if cause == 7
        then repeats
        else if cause == 1
        then (if masked % 2 == 0 then waits else dies)
        else dies)
    else dies

-- The run `r` from the trace `t` ends in this way.
abbrev pub EndsIn : CsrFile → Trace → Run (Unit {0}) → Fate → Type 0
EndsIn f t r skips =
    (t' : Trace) × (r ≡ done tt t')
    × (csr_after t' f "mepc" ≡ (csr_after t f "mepc" + 4) % 2 ^ 32)
    × (errors t' ≡ errors t)
EndsIn f t r repeats =
    (t' : Trace) × (r ≡ done tt t')
    × (csr_after t' f "mepc" ≡ csr_after t f "mepc")
    × (errors t' ≡ errors t)
EndsIn f t r waits = (t' : Trace) × (r ≡ hung t') × (errors t' ≡ errors t)
EndsIn f t r dies =
    (t' : Trace) × (r ≡ done tt (put_stdout 0xfc ∷ put_stdout 0x1 ∷ t'))
    × (csr_after t' f "mepc" ≡ csr_after t f "mepc")
