-- ===== src/Bringup.antt =====
-- src/integration/test_suites/mcu_cptra_bringup/mcu_cptra_bringup.c: the program that starts Caliptra.
-- Each polling loop takes a number of polls. The messages that VPRINTF prints are left out.
pub mod Boots
pub mod Tests
use caliptra_ss.Base.{ℕ, zero, suc, ◌/◌, ◌^◌, Bool, ◌||◌, bit_and, ◌==◌}
use caliptra_ss.Firmware.{
  Hw, Run, Fw, done, hung, branch, pure, ◌>>=◌, ◌>>◌, lsu_read_32, lsu_write_32,
}

-- The addresses and masks of src/mcu/rtl/caliptra_reg_defines.svh.
abbrev pub cptra_flow_status : ℕ
cptra_flow_status = 0x3003003c

abbrev pub cptra_fuse_wr_done : ℕ
cptra_fuse_wr_done = 0x300300b0

abbrev pub cptra_bootfsm_go : ℕ
cptra_bootfsm_go = 0x300300b8

abbrev pub ready_for_fuses_mask : ℕ
ready_for_fuses_mask = 0x40000000

-- `enum boot_fsm_state_e`: BOOT_WAIT and BOOT_DONE.
abbrev pub boot_wait : ℕ
boot_wait = 3

abbrev pub boot_done : ℕ
boot_done = 4

-- The field BOOT_FSM_PS of a flow status.
unfoldable pub boot_fsm_ps : ℕ → ℕ
boot_fsm_ps status = bit_and status 0xe000000 / 2 ^ 25

module _ (hw : Hw) where
  unfoldable pub wait_ready_for_fuses : ℕ → Fw (Unit {0})
  wait_ready_for_fuses zero t = hung t
  wait_ready_for_fuses (suc polls) t =
      let again : Fw (Unit {0}) = wait_ready_for_fuses polls in
      (do
        status ← lsu_read_32 hw cptra_flow_status
        branch (bit_and status ready_for_fuses_mask == 0) again (pure tt))
        t

  -- The loop on the boot state, from the state last read.
  unfoldable pub wait_boot_fsm : ℕ → ℕ → Fw ℕ
  wait_boot_fsm zero ps t = hung t
  wait_boot_fsm (suc polls) ps t =
      let again : ℕ → Fw ℕ = λ status. wait_boot_fsm polls (boot_fsm_ps status) in
      branch (ps == boot_done || ps == boot_wait) (pure ps)
        (lsu_read_32 hw cptra_flow_status >>= again) t

  unfoldable pub main : ℕ → Fw (Unit {0})
  main polls = do
    wait_ready_for_fuses polls
    lsu_write_32 cptra_fuse_wr_done 1
    status ← lsu_read_32 hw cptra_flow_status
    ps ← wait_boot_fsm polls (boot_fsm_ps status)
    branch (ps == boot_wait) (lsu_write_32 cptra_bootfsm_go 1) (pure tt)
