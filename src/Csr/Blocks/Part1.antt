-- ===== src/Csr/Blocks/Part1.antt =====
-- The sections of riscv-csr.h from misa to mcountinhibit, in the order of the file.
use caliptra_ss.Base.{◌-◌, List, [], ◌∷◌}
use caliptra_ss.Csr.Block.{
  Block, mro, mrw, bit_access, read_only, read_write, range_field, xlen, field,
}

abbrev pub misa : Block
misa = record { name = "misa"; mode = mrw; access = read_write; fields = []; ranges = [] }

abbrev pub mvendorid : Block
mvendorid = record { name = "mvendorid"; mode = mro; access = read_only; fields = []; ranges = [] }

abbrev pub marchid : Block
marchid = record { name = "marchid"; mode = mro; access = read_only; fields = []; ranges = [] }

abbrev pub mimpid : Block
mimpid = record { name = "mimpid"; mode = mro; access = read_only; fields = []; ranges = [] }

abbrev pub mhartid : Block
mhartid = record { name = "mhartid"; mode = mro; access = read_only; fields = []; ranges = [] }

abbrev pub mstatus : Block
mstatus = record {
  name = "mstatus";
  mode = mrw;
  access = bit_access;
  fields =
      field "MSTATUS_MIE" 3 1 0x8 0x1
      ∷ field "MSTATUS_SIE" 2 1 0x4 0x1
      ∷ field "MSTATUS_MPIE" 7 1 0x80 0x1
      ∷ field "MSTATUS_SPIE" 5 1 0x20 0x1
      ∷ field "MSTATUS_MPMCU_RV" 17 1 0x20000 0x1
      ∷ field "MSTATUS_MPP" 11 2 0x1800 0x3
      ∷ field "MSTATUS_SPP" 8 1 0x100 0x1
      ∷ [];
  ranges = [];
}

abbrev pub mstatush : Block
mstatush = record { name = "mstatush"; mode = mrw; access = read_write; fields = []; ranges = [] }

abbrev pub mtvec : Block
mtvec = record {
  name = "mtvec";
  mode = mrw;
  access = bit_access;
  fields = field "MTVEC_MODE" 0 2 0x3 0x3 ∷ [];
  ranges = range_field "MTVEC_BASE" 2 (xlen - 1) ∷ [];
}

abbrev pub medeleg : Block
medeleg = record { name = "medeleg"; mode = mrw; access = read_write; fields = []; ranges = [] }

abbrev pub mideleg : Block
mideleg = record { name = "mideleg"; mode = mrw; access = read_write; fields = []; ranges = [] }

abbrev pub mip : Block
mip = record {
  name = "mip";
  mode = mrw;
  access = bit_access;
  fields =
      field "MIP_MSI" 3 1 0x8 0x1
      ∷ field "MIP_MTI" 7 1 0x80 0x1
      ∷ field "MIP_MEI" 11 1 0x800 0x1
      ∷ field "MIP_SSI" 1 1 0x2 0x1
      ∷ field "MIP_STI" 5 1 0x20 0x1
      ∷ field "MIP_SEI" 9 1 0x200 0x1
      ∷ field "MIP_USI" 0 1 0x1 0x1
      ∷ field "MIP_UTI" 4 1 0x10 0x1
      ∷ field "MIP_UEI" 8 1 0x100 0x1
      ∷ [];
  ranges = range_field "MIP_PLATFORM_DEFINED" 16 xlen ∷ [];
}

abbrev pub mie : Block
mie = record {
  name = "mie";
  mode = mrw;
  access = bit_access;
  fields =
      field "MIE_MSI" 3 1 0x8 0x1
      ∷ field "MIE_MTI" 7 1 0x80 0x1
      ∷ field "MIE_MEI" 11 1 0x800 0x1
      ∷ field "MIE_SSI" 1 1 0x2 0x1
      ∷ field "MIE_STI" 5 1 0x20 0x1
      ∷ field "MIE_SEI" 9 1 0x200 0x1
      ∷ field "MIE_USI" 0 1 0x1 0x1
      ∷ field "MIE_UTI" 4 1 0x10 0x1
      ∷ field "MIE_UEI" 8 1 0x100 0x1
      ∷ [];
  ranges = range_field "MIE_PLATFORM_DEFINED" 16 xlen ∷ [];
}

abbrev pub mcountinhibit : Block
mcountinhibit = record {
  name = "mcountinhibit";
  mode = mrw;
  access = bit_access;
  fields =
      field "MCOUNTINHIBIT_CY" 0 1 0x1 0x1
      ∷ field "MCOUNTINHIBIT_IR" 2 1 0x4 0x1
      ∷ field "MCOUNTINHIBIT_HPM" 3 29 0xfffffff8 0x1fffffff
      ∷ [];
  ranges = [];
}

abbrev pub part1 : List Block
part1 =
    misa ∷ mvendorid ∷ marchid ∷ mimpid ∷ mhartid ∷ mstatus ∷ mstatush ∷ mtvec ∷ medeleg ∷ mideleg
    ∷ mip ∷ mie ∷ mcountinhibit ∷ []
