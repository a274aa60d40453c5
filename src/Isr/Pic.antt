-- ===== src/Isr/Pic.antt =====
-- src/integration/test_suites/libs/caliptra_isr/veer-csr.h: where the interrupt controller's registers are. The
-- base and the offsets come from a generated header that is not in the repository: they are
-- parameters.
use caliptra_ss.Base.{ℕ, ◌+◌, ◌*◌, ◌/◌, ◌^◌, ◌-◌, bit_or}

-- The names of the generated header, without MCU_RV_PIC.
pub record Pic : Type 0 where
  pub base_addr : ℕ
  pub meipl_offset : ℕ
  pub meip_offset : ℕ
  pub meie_offset : ℕ
  pub mpiccfg_offset : ℕ
  pub meigwctrl_offset : ℕ
  pub meigwclr_offset : ℕ
  pub total_int : ℕ

module _ (p : Pic) where
  -- The macros with an S take a source, and the one with an X a source whose word of 32 bits is meant.
  abbrev pub veer_mm_pic_meipls : ℕ
  veer_mm_pic_meipls = p.base_addr + p.meipl_offset

  abbrev pub veer_mm_pic_meipl : ℕ → ℕ
  veer_mm_pic_meipl s = p.base_addr + p.meipl_offset + s * 4

  abbrev pub veer_mm_pic_meipx : ℕ
  veer_mm_pic_meipx = p.base_addr + p.meip_offset

  abbrev pub veer_mm_pic_meip : ℕ → ℕ
  veer_mm_pic_meip x = p.base_addr + p.meip_offset + x / 2 ^ 5 * 4

  abbrev pub veer_mm_pic_meies : ℕ
  veer_mm_pic_meies = p.base_addr + p.meie_offset

  abbrev pub veer_mm_pic_meie : ℕ → ℕ
  veer_mm_pic_meie s = p.base_addr + p.meie_offset + s * 4

  abbrev pub veer_mm_pic_mpiccfg : ℕ
  veer_mm_pic_mpiccfg = p.base_addr + p.mpiccfg_offset

  abbrev pub veer_mm_pic_meigwctrls : ℕ
  veer_mm_pic_meigwctrls = p.base_addr + p.meigwctrl_offset

  abbrev pub veer_mm_pic_meigwctrl : ℕ → ℕ
  veer_mm_pic_meigwctrl s = p.base_addr + p.meigwctrl_offset + s * 4

  abbrev pub veer_mm_pic_meigwclrs : ℕ
  veer_mm_pic_meigwclrs = p.base_addr + p.meigwclr_offset

  abbrev pub veer_mm_pic_meigwclr : ℕ → ℕ
  veer_mm_pic_meigwclr s = p.base_addr + p.meigwclr_offset + s * 4

-- VEER_MEIGWCTRL_ACTIVE_HI_LEVEL and its siblings.
pub data Gateway : Type 0 where
  active_hi_level active_lo_level active_hi_edge active_lo_edge : Gateway

unfoldable pub veer_meigwctrl : Gateway → ℕ
veer_meigwctrl active_hi_level = 0
veer_meigwctrl active_lo_level = 1
veer_meigwctrl active_hi_edge = 2
veer_meigwctrl active_lo_edge = 3

-- MIE_MCEI_BIT_MASK
abbrev pub mie_mcei : ℕ
mie_mcei = 0x40000000

-- `MIE_MEI_BIT_MASK | MIE_MTI_BIT_MASK | MIE_MCEI_BIT_MASK`
abbrev pub mie_enabled : ℕ
mie_enabled = bit_or (bit_or 0x800 0x80) mie_mcei

-- MCAUSE_NMI_BIT_MASK, and the codes of the non-maskable interrupts.
abbrev pub mcause_nmi_bit_mask : ℕ
mcause_nmi_bit_mask = 0xf * 2 ^ (32 - 4)

abbrev pub mcause_nmi_code_dbus_store_value : ℕ
mcause_nmi_code_dbus_store_value = bit_or mcause_nmi_bit_mask 0x0000

abbrev pub mcause_nmi_code_dbus_load_value : ℕ
mcause_nmi_code_dbus_load_value = bit_or mcause_nmi_bit_mask 0x0001

abbrev pub mcause_nmi_code_fast_int_ecc_value : ℕ
mcause_nmi_code_fast_int_ecc_value = bit_or mcause_nmi_bit_mask 0x1000

abbrev pub mcause_nmi_code_fast_int_dccm_value : ℕ
mcause_nmi_code_fast_int_dccm_value = bit_or mcause_nmi_bit_mask 0x1001

abbrev pub mcause_nmi_code_fast_int_nondccm_value : ℕ
mcause_nmi_code_fast_int_nondccm_value = bit_or mcause_nmi_bit_mask 0x1002
