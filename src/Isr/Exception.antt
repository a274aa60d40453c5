-- ===== src/Isr/Exception.antt =====
-- `std_rv_mtvec_exception`, as it is built with MCU_RV_EXCEPTION_STRUCT, and the handlers of the timers
-- and of corrected errors.
use caliptra_ss.Base.{ℕ, ◌+◌, ◌/◌, ◌%◌, ◌^◌, bit_and, ◌==◌}
use caliptra_ss.Firmware.{
  Hw, Fw, emit, hang, fence_i, branch, ◌>>=◌, ◌>>◌, lsu_read_32, lsu_write_32,
}
use caliptra_ss.Isr.Interrupts.{
  riscv_excp, excp_load_access_fault, excp_store_amo_access_fault, excp_instruction_access_fault,
}
use caliptra_ss.Csr.Access.{csr_read, csr_write, csr_clr_bits}
use caliptra_ss.Isr.Handler.{send_stdout_ctrl}

-- Where the members of `exc_flag` are; its type is declared in a header that is not in the repository.
pub record ExcFlag : Type 0 where
  pub exception_hit : ℕ
  pub mcause : ℕ
  pub mscause : ℕ

-- The end of the function: kill the simulation with an error.
abbrev pub kill : Fw (Unit {0})
kill = do send_stdout_ctrl 0x1; send_stdout_ctrl 0xfc

module _ (hw : Hw) (exc_flag : ExcFlag) where
  -- The three cases of the `switch` that do anything; in each the cause is an uncorrectable error
  -- of a memory if `exc_flag.mscause` is 1.
  unfoldable pub load_access_fault : Fw (Unit {0})
  load_access_fault = do
    mscause ← lsu_read_32 hw exc_flag.mscause
    branch (mscause == 1)
        (do
          mepc ← csr_read hw "mepc"
          csr_write "mepc" ((mepc + 4) % 2 ^ 32)
          send_stdout_ctrl 0xfc)
        kill

  unfoldable pub store_access_fault : Fw (Unit {0})
  store_access_fault = do
    mscause ← lsu_read_32 hw exc_flag.mscause
    branch (mscause == 1) (send_stdout_ctrl 0xfc) kill

  unfoldable pub instruction_access_fault : Fw (Unit {0})
  instruction_access_fault = do
    mscause ← lsu_read_32 hw exc_flag.mscause
    branch (mscause == 1)
        (do
          send_stdout_ctrl 0xfc
          masked ← lsu_read_32 hw 0x30030630
          branch (bit_and masked 0x1 == 0) hang (lsu_write_32 0x30030624 0x1)
          kill)
        kill

  unfoldable pub std_rv_mtvec_exception : Fw (Unit {0})
  unfolding load_access_fault store_access_fault instruction_access_fault
  std_rv_mtvec_exception = do
    send_stdout_ctrl 0xfb
    this_cause ← csr_read hw "mcause"
    branch (this_cause / 2 ^ 31 % 2 == 1) (send_stdout_ctrl 0x1 >> kill) (do
      mscause ← csr_read hw "mscause"
      send_stdout_ctrl 0xe4
      emit fence_i
      lsu_write_32 exc_flag.exception_hit 1
      lsu_write_32 exc_flag.mcause this_cause
      lsu_write_32 exc_flag.mscause mscause
      _ ← csr_read hw "mepc"
      _ ← csr_read hw "mtval"
      branch (this_cause == riscv_excp excp_load_access_fault) load_access_fault (
          branch (this_cause == riscv_excp excp_store_amo_access_fault) store_access_fault (
            branch (this_cause == riscv_excp excp_instruction_access_fault) instruction_access_fault
              kill)))

-- Internal timer, machine timer and corrected error.
unfoldable pub std_rv_mtvec_mti : Fw (Unit {0})
std_rv_mtvec_mti = do lsu_write_32 0x30030648 0xFFFFFFFF; lsu_write_32 0x3003064c 0xFFFFFFFF

unfoldable pub nonstd_veer_mtvec_miti0 : Fw (Unit {0})
nonstd_veer_mtvec_miti0 = csr_write "mitctl0" 0

unfoldable pub nonstd_veer_mtvec_mcei : Fw (Unit {0})
nonstd_veer_mtvec_mcei = do
  csr_clr_bits "micect" 0x07FFFFFF
  csr_clr_bits "miccmect" 0x07FFFFFF
  csr_clr_bits "mdccmect" 0x07FFFFFF
