-- ===== src/Csr/Access.antt =====
-- The accessors of riscv-csr.h, for any register: the comment of each names the one of `mstatus`.
-- And what they do to a file of registers, by the definition of the instructions.
use Prim.Native.String.{String}
use text.Mathlib.Text.{◌==◌ as str_eq}
use Prim.Native.Nat.{bit_xor}
use caliptra_ss.Base.{ℕ, ◌-◌, ◌^◌, [], ◌∷◌, bit_and, bit_or, if◌then◌else◌}
use caliptra_ss.Firmware.{Event, csrr, csrrw, csrrs, csrrc, Trace, Hw, done, Fw, emit}

module _ (hw : Hw) where
  -- `csr_read_mstatus`
  abbrev pub csr_read : String → Fw ℕ
  csr_read r t = done (hw.csr_value t r) (csrr r ∷ t)

  -- `csr_read_write_mstatus`
  abbrev pub csr_read_write : String → ℕ → Fw ℕ
  csr_read_write r new_value t = done (hw.csr_value t r) (csrrw r new_value ∷ t)

  -- `csr_read_set_bits_mstatus`
  abbrev pub csr_read_set_bits : String → ℕ → Fw ℕ
  csr_read_set_bits r mask t = done (hw.csr_value t r) (csrrs r mask ∷ t)

  -- `csr_read_clr_bits_mstatus`
  abbrev pub csr_read_clr_bits : String → ℕ → Fw ℕ
  csr_read_clr_bits r mask t = done (hw.csr_value t r) (csrrc r mask ∷ t)

-- `csr_write_mstatus`, and `CSR_WRITE_IMM_MSTATUS`
abbrev pub csr_write : String → ℕ → Fw (Unit {0})
csr_write r value = emit (csrrw r value)

-- `csr_set_bits_mstatus`, and `CSR_SET_BITS_IMM_MSTATUS`
abbrev pub csr_set_bits : String → ℕ → Fw (Unit {0})
csr_set_bits r mask = emit (csrrs r mask)

-- `csr_clr_bits_mstatus`, and `CSR_CLR_BITS_IMM_MSTATUS`
abbrev pub csr_clr_bits : String → ℕ → Fw (Unit {0})
csr_clr_bits r mask = emit (csrrc r mask)

abbrev pub CsrFile : Type 0
CsrFile = String → ℕ

-- `old & ~mask` on 32 bits.
abbrev pub clear_bits : ℕ → ℕ → ℕ
clear_bits old mask = bit_and old (bit_xor mask (2 ^ 32 - 1))

abbrev pub update : CsrFile → String → ℕ → CsrFile
update f r v q = if str_eq r q then v else f q

abbrev pub apply : Event → CsrFile → CsrFile
apply (csrrw r v) f = update f r v
apply (csrrs r m) f = update f r (bit_or (f r) m)
apply (csrrc r m) f = update f r (clear_bits (f r) m)
apply _ f = f

-- The registers after a trace, from those before it, with no other writer.
abbrev pub csr_after : Trace → CsrFile → CsrFile
csr_after [] f = f
csr_after (e ∷ t) f = apply e (csr_after t f)
