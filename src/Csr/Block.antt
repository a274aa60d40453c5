-- ===== src/Csr/Block.antt =====
-- What a section of riscv-csr.h declares for one register.
use Prim.Native.String.{String}
use caliptra_ss.Base.{ℕ, ◌+◌, ◌-◌, ◌*◌, ◌^◌, ◌%◌, List}

-- The letters in a section's title: the privilege, and whether the register is read-only.
pub data Mode : Type 0 where
  mro mrw srw uro urw hro hrw drw : Mode

-- Which accessors a section has: `csr_read_X`; also `csr_write_X` and `csr_read_write_X`; also those
-- that set and clear bits, with a mask in a register or in the instruction.
pub data Access : Type 0 where
  read_only read_write bit_access : Access

-- X_BIT_OFFSET, X_BIT_WIDTH, X_BIT_MASK and X_ALL_SET_MASK.
pub record Field : Type 0 where
  pub name : String
  pub offset : ℕ
  pub width : ℕ
  pub mask : ℕ
  pub all_set : ℕ

pub record Block : Type 0 where
  pub name : String
  pub mode : Mode
  pub access : Access
  pub fields : List Field
  pub ranges : List Field

abbrev pub xlen : ℕ
xlen = 32

abbrev pub field : String → ℕ → ℕ → ℕ → ℕ → Field
field name offset width mask all_set = record {
  name = name;
  offset = offset;
  width = width;
  mask = mask;
  all_set = all_set;
}

-- The macros that count in `__riscv_xlen`: a width `((hi)-(lo) + 1)`, a mask
-- `((1UL<<(((hi)-(lo) + 1)-1)) << (lo))`, and the same shifted by 0.
abbrev pub range_field : String → ℕ → ℕ → Field
range_field name lo hi = record {
  name = name;
  offset = lo;
  width = hi - lo + 1;
  mask = 2 ^ (hi - lo + 1 - 1) % 2 ^ xlen * 2 ^ lo % 2 ^ xlen;
  all_set = 2 ^ (hi - lo + 1 - 1) % 2 ^ xlen;
}
