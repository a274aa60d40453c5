-- ===== src/Isr/Service.antt =====
-- The service routines of src/integration/test_suites/mcu_hello_world/caliptra_isr.h. Each reads the register of
-- its pending interrupts, in which a one that is written clears, and writes back each bit that it knows.
use Prim.Native.String.{String}
use caliptra_ss.Base.{ℕ, bit_and, ◌==◌, List, [], ◌∷◌, ◌++◌, codes}
use caliptra_ss.Firmware.{
  Hw, Fw, emit, hang, put_stdout, branch, pure, ◌>>=◌, ◌>>◌, lsu_read_32, lsu_write_32,
}
use caliptra_ss.Printf.Number.{Printed, printed, minus_one, undefined, unfinished}
use caliptra_ss.Printf.Format.{word, printf}

abbrev pub write_all : List ℕ → Fw (Unit {0})
write_all [] = pure tt
write_all (c ∷ cs) = emit (put_stdout c) >> write_all cs

-- A call of `printf`, whose result is dropped.
abbrev pub print : Printed → Fw (Unit {0})
print (printed count bytes) = write_all bytes
print minus_one = pure tt
print undefined = hang
print unfinished = hang

-- `if (sts & MASK) *reg = MASK;` for each mask in turn.
unfoldable pub acknowledge : ℕ → ℕ → List ℕ → Fw (Unit {0})
acknowledge reg sts [] = pure tt
acknowledge reg sts (mask ∷ masks) =
    branch (bit_and sts mask == 0) (pure tt) (lsu_write_32 reg mask) >> acknowledge reg sts masks

-- The body that the routines share: the register, the masks in the order of the code, and the name.
unfoldable pub service : Hw → ℕ → List ℕ → String → Fw (Unit {0})
unfolding acknowledge
service hw reg masks name = do
  sts ← lsu_read_32 hw reg
  acknowledge reg sts masks
  branch (sts == 0)
      (print (
          printf (codes "bad " ++ codes name ++ codes "_intr sts:%x" ++ b'\n' ∷ []) (word sts ∷ []))
        >> print (printf (codes "%c") (word 1 ∷ [])))
      (pure tt)

module _ (hw : Hw) where
  unfoldable pub service_doe_notif_intr : Fw (Unit {0})
  service_doe_notif_intr = service hw 0x10000818 (0x1 ∷ []) "doe_notif"

  unfoldable pub service_ecc_notif_intr : Fw (Unit {0})
  service_ecc_notif_intr = service hw 0x10008818 (0x1 ∷ []) "ecc_notif"

  unfoldable pub service_hmac_notif_intr : Fw (Unit {0})
  service_hmac_notif_intr = service hw 0x10010818 (0x1 ∷ []) "hmac_notif"

  unfoldable pub service_sha512_notif_intr : Fw (Unit {0})
  service_sha512_notif_intr = service hw 0x10020818 (0x1 ∷ []) "sha512_notif"

  unfoldable pub service_sha256_notif_intr : Fw (Unit {0})
  service_sha256_notif_intr = service hw 0x10028818 (0x1 ∷ []) "sha256_notif"

  unfoldable pub service_soc_ifc_error_intr : Fw (Unit {0})
  service_soc_ifc_error_intr =
      service hw 0x30030814 (0x1 ∷ 0x2 ∷ 0x4 ∷ 0x8 ∷ 0x10 ∷ 0x20 ∷ []) "soc_ifc_error"

  unfoldable pub service_soc_ifc_notif_intr : Fw (Unit {0})
  service_soc_ifc_notif_intr = service hw 0x30030818 (0x1 ∷ 0x2 ∷ 0x4 ∷ 0x8 ∷ []) "soc_ifc_notif"

  unfoldable pub service_sha512_acc_notif_intr : Fw (Unit {0})
  service_sha512_acc_notif_intr = service hw 0x30021818 (0x1 ∷ []) "sha512_acc_notif"
