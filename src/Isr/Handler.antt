-- ===== src/Isr/Handler.antt =====
-- The handler that the macro `nonstd_veer_isr` lays down for each interrupt source, and `std_rv_isr`.
use caliptra_ss.Base.{ℕ, ◌+◌, ◌/◌, ◌%◌, ◌^◌, bit_and, bit_or, ◌==◌}
use caliptra_ss.Firmware.{
  Hw, Fw, emit, put_stdout, branch, pure, ◌>>=◌, ◌>>◌, lsu_read_32, lsu_write_32,
}
use caliptra_ss.Isr.Interrupts.{mti, mei, riscv_int_mask, excp_load_access_fault, riscv_excp}
use caliptra_ss.Csr.Access.{csr_read, csr_write, csr_set_bits, csr_clr_bits}

-- SEND_STDOUT_CTRL
abbrev pub send_stdout_ctrl : ℕ → Fw (Unit {0})
send_stdout_ctrl ctrl = emit (put_stdout ctrl)

-- MSTATUS_MIE_BIT_MASK, `MSTATUS_MPIE_BIT_MASK | MSTATUS_MPP_BIT_MASK`, and
-- `MIE_MSI_BIT_MASK | MIE_MTI_BIT_MASK | MIE_MEI_BIT_MASK`.
abbrev pub mstatus_mie : ℕ
mstatus_mie = 0x8

abbrev pub mstatus_saved : ℕ
mstatus_saved = bit_or 0x80 0x1800

abbrev pub mie_saved : ℕ
mie_saved = bit_or (bit_or 0x8 0x80) 0x800

-- `intr_count` is the address of the counter, which other handlers count in too. `service` is the
-- routine of the source, with whatever handlers interrupt it.
unfoldable pub nonstd_veer_isr : Hw → ℕ → Fw (Unit {0}) → Fw (Unit {0})
nonstd_veer_isr hw intr_count service = do
  send_stdout_ctrl 0xfb
  meicidpl ← csr_read hw "meicidpl"
  prev_meicurpl ← csr_read hw "meicurpl"
  prev_mepc ← csr_read hw "mepc"
  prev_mstatus ← csr_read hw "mstatus"
  prev_mie ← csr_read hw "mie"
  csr_write "meicurpl" meicidpl
  csr_set_bits "mstatus" mstatus_mie
  count ← lsu_read_32 hw intr_count
  lsu_write_32 intr_count ((count + 1) % 2 ^ 32)
  service
  csr_clr_bits "mstatus" mstatus_mie
  csr_write "meicurpl" prev_meicurpl
  csr_write "mepc" prev_mepc
  csr_set_bits "mstatus" (bit_and prev_mstatus mstatus_saved)
  csr_set_bits "mie" (bit_and prev_mie mie_saved)
  send_stdout_ctrl 0xfc

-- The cases of the first `switch` are RISCV_INT_MASK_MTI and RISCV_INT_MASK_MEI. `call_isr` calls the
-- handler at an address.
unfoldable pub std_rv_isr : Hw → (ℕ → Fw (Unit {0})) → Fw (Unit {0})
std_rv_isr hw call_isr = do
  send_stdout_ctrl 0xfb
  this_cause ← csr_read hw "mcause"
  branch (this_cause / 2 ^ 31 % 2 == 1)
      (branch (this_cause % 2 ^ 8 == riscv_int_mask mti) (pure tt) (
        branch (this_cause % 2 ^ 8 == riscv_int_mask mei)
          (do csr_write "meicpct" 0; isr ← csr_read hw "meihap"; call_isr isr) (pure tt)))
      (branch (this_cause == riscv_excp excp_load_access_fault)
        (do _ ← csr_read hw "mscause"; _ ← csr_read hw "mepc"; _ ← csr_read hw "mtval"; pure tt)
        (pure tt))
  send_stdout_ctrl 0xfc
