-- ===== src/Isr/Init.antt =====
-- `init_interrupts` of src/integration/test_suites/libs/caliptra_isr/caliptra_isr.c.
pub mod Loops
pub mod Stores
pub mod Effects
pub mod Registers
pub mod Configured
pub mod Masked
pub mod Wraps
use caliptra_ss.Base.{
  ℕ, zero, suc, ◌+◌, ◌*◌, ◌%◌, ◌^◌, Bool, List, [], ◌∷◌, ◌++◌, bit_or, leb, if◌then◌else◌,
}
use caliptra_ss.Firmware.{
  Event, Run, Fw, done, hung, emit, fence, branch, pure, ◌>>=◌, ◌>>◌, lsu_write_32,
}
use caliptra_ss.Csr.Access.{csr_write, csr_set_bits, csr_clr_bits}
use caliptra_ss.Isr.Handler.{mstatus_mie}
use caliptra_ss.Isr.Pic.{
  Pic, veer_mm_pic_meipls, veer_mm_pic_meies, veer_mm_pic_mpiccfg, veer_mm_pic_meigwctrls,
  veer_mm_pic_meigwclrs, veer_meigwctrl, active_hi_level, mie_enabled,
}
use caliptra_ss.Isr.Sources.{
  doe_error, doe_notif, ecc_error, ecc_notif, hmac_error, hmac_notif, kv_error, kv_notif,
  sha512_error, sha512_notif, sha256_error, sha256_notif, qspi_error, qspi_notif, uart_error,
  uart_notif, i3c_error, i3c_notif, soc_ifc_error, soc_ifc_notif, sha512_acc_error,
  sha512_acc_notif, Source, veer_intr_vec, veer_intr_prio, veer_intr_vec_max_assigned,
}

-- The sources in the order in which the code sets their priorities.
abbrev pub sources : List Source
sources =
    doe_error ∷ doe_notif ∷ ecc_error ∷ ecc_notif ∷ hmac_error ∷ hmac_notif ∷ kv_error ∷ kv_notif
    ∷ sha512_error ∷ sha512_notif ∷ sha256_error ∷ sha256_notif ∷ qspi_error ∷ qspi_notif
    ∷ uart_error ∷ uart_notif ∷ i3c_error ∷ i3c_notif ∷ soc_ifc_error ∷ soc_ifc_notif
    ∷ sha512_acc_error ∷ sha512_acc_notif ∷ []

-- `*p = x; __asm__ volatile ("fence");`
abbrev pub fenced_write : ℕ → ℕ → Fw (Unit {0})
fenced_write addr x = lsu_write_32 addr x >> emit fence

-- The assignments to `meipls[VEER_INTR_VEC_…]`.
unfoldable pub set_priorities : Pic → List Source → Fw (Unit {0})
set_priorities p [] = pure tt
set_priorities p (s ∷ ss) =
    fenced_write (veer_mm_pic_meipls p + veer_intr_vec s * 4) (veer_intr_prio s)
    >> set_priorities p ss

-- `for (uint8_t vec = …; vec <= MCU_RV_PIC_TOTAL_INT; vec++)`: the counter wraps at 256.
unfoldable pub for_vec : (ℕ → Fw (Unit {0})) → ℕ → ℕ → ℕ → Fw (Unit {0})
for_vec body total zero vec t = hung t
for_vec body total (suc rounds) vec t =
    let rest : Fw (Unit {0}) = for_vec body total rounds ((vec + 1) % 2 ^ 8) in
    branch (leb vec total) (body vec >> rest) (pure tt) t

-- The body of the first loop, and of the second.
abbrev pub never_interrupt : Pic → ℕ → Fw (Unit {0})
never_interrupt p vec = fenced_write (veer_mm_pic_meipls p + vec * 4) 0

abbrev pub configure_gateway : Pic → ℕ → Fw (Unit {0})
configure_gateway p vec = do
  fenced_write (veer_mm_pic_meigwctrls p + vec * 4) (veer_meigwctrl active_hi_level)
  fenced_write (veer_mm_pic_meigwclrs p + vec * 4) 0
  fenced_write (veer_mm_pic_meies p + vec * 4) (if leb vec veer_intr_vec_max_assigned then 1 else 0)

-- Each component's enables: DOE, ECC, HMAC, SHA512, SHA256, the mailbox, the SHA accelerator.
unfoldable pub enable_components : Fw (Unit {0})
enable_components = do
  lsu_write_32 0x10000808 0x1
  lsu_write_32 0x10000800 0x3
  lsu_write_32 0x10008804 0x1
  lsu_write_32 0x10008808 0x1
  lsu_write_32 0x10008800 0x3
  lsu_write_32 0x10010808 0x1
  lsu_write_32 0x10010800 0x3
  lsu_write_32 0x10020808 0x1
  lsu_write_32 0x10020800 0x3
  lsu_write_32 0x10028804 0x3
  lsu_write_32 0x10028808 0x1
  lsu_write_32 0x10028800 0x3
  lsu_write_32 0x30030818 0x4
  lsu_write_32 0x30030818 0x8
  lsu_write_32 0x30030988 0
  lsu_write_32 0x3003098c 0
  lsu_write_32 0x30030804 0xff
  lsu_write_32 0x30030808 0x3f
  lsu_write_32 0x30030800 0x3
  lsu_write_32 0x30021808 0x1
  lsu_write_32 0x30021800 0x3

-- The two vector tables are where the linker puts them; `rounds` bounds each loop.
unfoldable pub init_interrupts : Pic → ℕ → ℕ → ℕ → Fw (Unit {0})
init_interrupts p std_table nonstd_table rounds = do
  csr_clr_bits "mstatus" mstatus_mie
  csr_write "mtvec" (bit_or std_table 1)
  csr_write "meivt" nonstd_table
  fenced_write (veer_mm_pic_mpiccfg p) 0
  csr_write "meipt" 0
  set_priorities p sources
  for_vec (never_interrupt p) p.total_int rounds (veer_intr_vec_max_assigned + 1)
  csr_write "meicidpl" 0
  csr_write "meicurpl" 0
  for_vec (configure_gateway p) p.total_int rounds 1
  enable_components
  lsu_write_32 0x30030648 0xFFFFFFFF
  lsu_write_32 0x3003064c 0xFFFFFFFF
  csr_write "micect" 0xd0000000
  csr_write "miccmect" 0xd0000000
  csr_write "mdccmect" 0xd0000000
  csr_set_bits "mie" mie_enabled
  csr_set_bits "mstatus" mstatus_mie
