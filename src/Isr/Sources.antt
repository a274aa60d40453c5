-- ===== src/Isr/Sources.antt =====
-- src/integration/test_suites/includes/caliptra_defines.h: the sources of external interrupts, with the
-- vector and the priority of each; and the vector table of caliptra_isr.c.
use caliptra_ss.Base.{ℕ, List, [], ◌∷◌}

pub data Source : Type 0 where
  doe_error doe_notif ecc_error ecc_notif : Source
  hmac_error hmac_notif kv_error kv_notif : Source
  sha512_error sha512_notif sha256_error sha256_notif : Source
  qspi_error qspi_notif uart_error uart_notif : Source
  i3c_error i3c_notif soc_ifc_error soc_ifc_notif : Source
  sha512_acc_error sha512_acc_notif : Source

-- VEER_INTR_VEC_*
unfoldable pub veer_intr_vec : Source → ℕ
veer_intr_vec doe_error = 1
veer_intr_vec doe_notif = 2
veer_intr_vec ecc_error = 3
veer_intr_vec ecc_notif = 4
veer_intr_vec hmac_error = 5
veer_intr_vec hmac_notif = 6
veer_intr_vec kv_error = 7
veer_intr_vec kv_notif = 8
veer_intr_vec sha512_error = 9
veer_intr_vec sha512_notif = 10
veer_intr_vec sha256_error = 11
veer_intr_vec sha256_notif = 12
veer_intr_vec qspi_error = 13
veer_intr_vec qspi_notif = 14
veer_intr_vec uart_error = 15
veer_intr_vec uart_notif = 16
veer_intr_vec i3c_error = 17
veer_intr_vec i3c_notif = 18
veer_intr_vec soc_ifc_error = 19
veer_intr_vec soc_ifc_notif = 20
veer_intr_vec sha512_acc_error = 21
veer_intr_vec sha512_acc_notif = 22

-- VEER_INTR_VEC_MAX_ASSIGNED
abbrev pub veer_intr_vec_max_assigned : ℕ
veer_intr_vec_max_assigned = 22

-- VEER_INTR_PRIO_*
unfoldable pub veer_intr_prio : Source → ℕ
veer_intr_prio doe_error = 8
veer_intr_prio doe_notif = 7
veer_intr_prio ecc_error = 8
veer_intr_prio ecc_notif = 7
veer_intr_prio hmac_error = 8
veer_intr_prio hmac_notif = 7
veer_intr_prio kv_error = 8
veer_intr_prio kv_notif = 7
veer_intr_prio sha512_error = 8
veer_intr_prio sha512_notif = 7
veer_intr_prio sha256_error = 8
veer_intr_prio sha256_notif = 7
veer_intr_prio qspi_error = 4
veer_intr_prio qspi_notif = 3
veer_intr_prio uart_error = 4
veer_intr_prio uart_notif = 3
veer_intr_prio i3c_error = 4
veer_intr_prio i3c_notif = 3
veer_intr_prio soc_ifc_error = 8
veer_intr_prio soc_ifc_notif = 7
veer_intr_prio sha512_acc_error = 8
veer_intr_prio sha512_acc_notif = 7

-- What an entry of the vector table points to: the empty handler of vector 0, the handler that the
-- macro lays down for a source, or `std_rv_nop_machine`.
pub data Handler : Type 0 where
  nonstd_veer_isr_0 std_rv_nop_machine : Handler
  nonstd_veer_isr : Source → Handler

abbrev pub nonstd_veer_isr_vector_table : List Handler
nonstd_veer_isr_vector_table =
    nonstd_veer_isr_0
    ∷ nonstd_veer_isr doe_error
    ∷ nonstd_veer_isr doe_notif
    ∷ nonstd_veer_isr ecc_error
    ∷ nonstd_veer_isr ecc_notif
    ∷ nonstd_veer_isr hmac_error
    ∷ nonstd_veer_isr hmac_notif
    ∷ nonstd_veer_isr kv_error
    ∷ nonstd_veer_isr kv_notif
    ∷ nonstd_veer_isr sha512_error
    ∷ nonstd_veer_isr sha512_notif
    ∷ nonstd_veer_isr sha256_error
    ∷ nonstd_veer_isr sha256_notif
    ∷ std_rv_nop_machine
    ∷ std_rv_nop_machine
    ∷ std_rv_nop_machine
    ∷ std_rv_nop_machine
    ∷ std_rv_nop_machine
    ∷ std_rv_nop_machine
    ∷ nonstd_veer_isr soc_ifc_error
    ∷ nonstd_veer_isr soc_ifc_notif
    ∷ nonstd_veer_isr sha512_acc_error
    ∷ nonstd_veer_isr sha512_acc_notif
    ∷ std_rv_nop_machine
    ∷ std_rv_nop_machine
    ∷ std_rv_nop_machine
    ∷ std_rv_nop_machine
    ∷ std_rv_nop_machine
    ∷ std_rv_nop_machine
    ∷ std_rv_nop_machine
    ∷ std_rv_nop_machine
    ∷ std_rv_nop_machine
    ∷ []
