-- ===== src/Isr/Dispatch.antt =====
-- What the two vector tables of src/integration/test_suites/libs/caliptra_isr/caliptra_isr.c lead to, with the service
-- routines of src/integration/test_suites/mcu_hello_world/caliptra_isr.h.
use caliptra_ss.Base.{ℕ, leb, zero, suc, List, [], ◌∷◌}
use caliptra_ss.Firmware.{Hw, Fw, pure, hang, branch, ◌>>=◌, ◌>>◌}
use caliptra_ss.Csr.Access.{csr_read}
use caliptra_ss.Isr.Handler.{send_stdout_ctrl, nonstd_veer_isr as veer_isr}
use caliptra_ss.Isr.Service.{
  service_doe_notif_intr, service_ecc_notif_intr, service_hmac_notif_intr,
  service_sha512_notif_intr, service_sha256_notif_intr, service_soc_ifc_error_intr,
  service_soc_ifc_notif_intr, service_sha512_acc_notif_intr,
}
use caliptra_ss.Isr.Sources.{
  Source, doe_notif, ecc_notif, hmac_notif, sha512_notif, sha256_notif, soc_ifc_error,
  soc_ifc_notif, sha512_acc_notif, Handler, nonstd_veer_isr_0, std_rv_nop_machine, nonstd_veer_isr,
  nonstd_veer_isr_vector_table,
}

-- `service_##name##_intr()`; the routines of the other sources return at once.
unfoldable pub service_intr : Hw → Source → Fw (Unit {0})
service_intr hw doe_notif = service_doe_notif_intr hw
service_intr hw ecc_notif = service_ecc_notif_intr hw
service_intr hw hmac_notif = service_hmac_notif_intr hw
service_intr hw sha512_notif = service_sha512_notif_intr hw
service_intr hw sha256_notif = service_sha256_notif_intr hw
service_intr hw soc_ifc_error = service_soc_ifc_error_intr hw
service_intr hw soc_ifc_notif = service_soc_ifc_notif_intr hw
service_intr hw sha512_acc_notif = service_sha512_acc_notif_intr hw
service_intr hw _ = pure tt

-- HIGH of `enum printf_verbosity`.
abbrev pub high : ℕ
high = 5

-- `std_rv_nop_machine`: `mcause` is an argument of VPRINTF(HIGH, ...), read only where the message is
-- printed. The message itself is left out.
abbrev pub nop_machine : (hw : Hw) (verbosity : ℕ) → Fw (Unit {0})
nop_machine hw verbosity =
    branch (leb high verbosity) (do _ ← csr_read hw "mcause"; pure tt) (pure tt)

-- `verbosity` is `verbosity_g`. A service routine runs with nested interrupts enabled: `preempted` is
-- what it becomes with the handlers that interrupt it.
module _ (hw : Hw) (verbosity intr_count : ℕ) (preempted : Fw (Unit {0}) → Fw (Unit {0})) where
  -- `nonstd_veer_isr_0`
  abbrev pub isr_0 : Fw (Unit {0})
  isr_0 = send_stdout_ctrl 0xfb >> send_stdout_ctrl 0xfc

  -- `nonstd_veer_isr(name)`
  abbrev pub source_isr : Source → Fw (Unit {0})
  source_isr s = veer_isr hw intr_count (preempted (service_intr hw s))

  unfoldable pub run_handler : Handler → Fw (Unit {0})
  run_handler nonstd_veer_isr_0 = isr_0
  run_handler std_rv_nop_machine = nop_machine hw verbosity
  run_handler (nonstd_veer_isr s) = source_isr s

  -- An index past the end of a table.
  unfoldable pub run_entry : List Handler → ℕ → Fw (Unit {0})
  run_entry [] i = hang
  run_entry (h ∷ hs) zero = run_handler h
  run_entry (h ∷ hs) (suc i) = run_entry hs i

  -- The interrupt controller redirects to the entry of the table at `meivt` with the number of the
  -- source.
  unfoldable pub redirect : ℕ → Fw (Unit {0})
  redirect vec = run_entry nonstd_veer_isr_vector_table vec
