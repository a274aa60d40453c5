-- ===== src/Isr/Traps.antt =====
-- `std_rv_isr_vector_table` of src/integration/test_suites/libs/caliptra_isr/caliptra_isr.c, which `mtvec` points to.
use caliptra_ss.Base.{ℕ, zero, suc, List, [], ◌∷◌, Option, none, some}
use caliptra_ss.Firmware.{Hw, Fw}
use caliptra_ss.Isr.Dispatch.{nop_machine}
use caliptra_ss.Isr.Exception.{
  ExcFlag, std_rv_mtvec_exception, std_rv_mtvec_mti, nonstd_veer_mtvec_miti0,
  nonstd_veer_mtvec_mcei,
}

-- The routines that the table jumps to; the weak ones are aliases of `std_rv_nop_machine`.
pub data Routine : Type 0 where
  mtvec_exception mtvec_nop mtvec_mti mtvec_miti0 mtvec_mcei : Routine

-- By the cause; between the entries the assembler leaves gaps.
abbrev pub std_rv_isr_vector_table : List (Option Routine)
std_rv_isr_vector_table =
    some mtvec_exception
    ∷ some mtvec_nop
    ∷ none
    ∷ some mtvec_nop
    ∷ none
    ∷ some mtvec_nop
    ∷ none
    ∷ some mtvec_mti
    ∷ none
    ∷ some mtvec_nop
    ∷ none
    ∷ some mtvec_nop
    ∷ none
    ∷ none
    ∷ none
    ∷ none
    ∷ none
    ∷ none
    ∷ none
    ∷ none
    ∷ none
    ∷ none
    ∷ none
    ∷ none
    ∷ none
    ∷ none
    ∷ none
    ∷ none
    ∷ none
    ∷ some mtvec_miti0
    ∷ some mtvec_mcei
    ∷ []

abbrev pub entry_at : List (Option Routine) → ℕ → Option Routine
entry_at [] i = none
entry_at (r ∷ rs) zero = r
entry_at (r ∷ rs) (suc i) = entry_at rs i

module _ (hw : Hw) (verbosity : ℕ) (exc_flag : ExcFlag) where
  unfoldable pub run_routine : Routine → Fw (Unit {0})
  run_routine mtvec_exception = std_rv_mtvec_exception hw exc_flag
  run_routine mtvec_nop = nop_machine hw verbosity
  run_routine mtvec_mti = std_rv_mtvec_mti
  run_routine mtvec_miti0 = nonstd_veer_mtvec_miti0
  run_routine mtvec_mcei = nonstd_veer_mtvec_mcei
