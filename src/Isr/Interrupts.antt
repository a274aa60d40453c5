-- ===== src/Isr/Interrupts.antt =====
-- src/integration/test_suites/libs/caliptra_isr/riscv-interrupts.h: the positions and masks of the standard
-- interrupts, and the codes of the exceptions.
use caliptra_ss.Base.{ℕ, ◌^◌}

pub data Interrupt : Type 0 where
  msi mti mei ssi sti sei usi uti uei : Interrupt

-- RISCV_INT_POS_*
abbrev pub riscv_int_pos : Interrupt → ℕ
riscv_int_pos msi = 3
riscv_int_pos mti = 7
riscv_int_pos mei = 11
riscv_int_pos ssi = 1
riscv_int_pos sti = 5
riscv_int_pos sei = 9
riscv_int_pos usi = 0
riscv_int_pos uti = 4
riscv_int_pos uei = 8

-- RISCV_INT_MASK_*
abbrev pub riscv_int_mask : Interrupt → ℕ
riscv_int_mask i = 2 ^ riscv_int_pos i

pub data Fault : Type 0 where
  excp_instruction_address_misaligned excp_instruction_access_fault excp_illegal_instruction
        excp_breakpoint :
      Fault
  excp_load_address_misaligned excp_load_access_fault : Fault
  excp_store_amo_address_misaligned excp_store_amo_access_fault : Fault
  excp_environment_call_from_u_mode excp_environment_call_from_s_mode excp_reserved10 : Fault
  excp_environment_call_from_m_mode excp_instruction_page_fault excp_load_page_fault
        excp_reserved14 :
      Fault
  excp_store_amo_page_fault : Fault

-- RISCV_EXCP_*
abbrev pub riscv_excp : Fault → ℕ
riscv_excp excp_instruction_address_misaligned = 0
riscv_excp excp_instruction_access_fault = 1
riscv_excp excp_illegal_instruction = 2
riscv_excp excp_breakpoint = 3
riscv_excp excp_load_address_misaligned = 4
riscv_excp excp_load_access_fault = 5
riscv_excp excp_store_amo_address_misaligned = 6
riscv_excp excp_store_amo_access_fault = 7
riscv_excp excp_environment_call_from_u_mode = 8
riscv_excp excp_environment_call_from_s_mode = 9
riscv_excp excp_reserved10 = 10
riscv_excp excp_environment_call_from_m_mode = 11
riscv_excp excp_instruction_page_fault = 12
riscv_excp excp_load_page_fault = 13
riscv_excp excp_reserved14 = 14
riscv_excp excp_store_amo_page_fault = 15
