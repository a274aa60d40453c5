-- ===== src/Csr/Mdeau.antt =====
-- src/integration/test_suites/libs/caliptra_isr/veer-csr.h: the accessors of the register `mdeau`.
use caliptra_ss.Base.{ℕ}
use caliptra_ss.Firmware.{Hw, Fw}
use caliptra_ss.Csr.Access.{csr_read, csr_write, csr_read_write}

abbrev pub csr_read_mdeau : Hw → Fw ℕ
csr_read_mdeau hw = csr_read hw "mdeau"

abbrev pub csr_write_mdeau : ℕ → Fw (Unit {0})
csr_write_mdeau value = csr_write "mdeau" value

abbrev pub csr_read_write_mdeau : Hw → ℕ → Fw ℕ
csr_read_write_mdeau hw new_value = csr_read_write hw "mdeau" new_value
