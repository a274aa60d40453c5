-- ===== src/Csr/Blocks/Part2.antt =====
-- The sections of riscv-csr.h from mcycle to stvec, in the order of the file.
use caliptra_ss.Base.{◌-◌, ◌*◌, ◌^◌, List, [], ◌∷◌}
use caliptra_ss.Csr.Block.{Block, mrw, srw, bit_access, read_write, range_field, xlen, field}

abbrev pub mcycle : Block
mcycle = record { name = "mcycle"; mode = mrw; access = read_write; fields = []; ranges = [] }

abbrev pub minstret : Block
minstret = record { name = "minstret"; mode = mrw; access = read_write; fields = []; ranges = [] }

abbrev pub mhpmcounter3 : Block
mhpmcounter3 = record {
  name = "mhpmcounter3";
  mode = mrw;
  access = read_write;
  fields = [];
  ranges = [];
}

abbrev pub mhpmevent3 : Block
mhpmevent3 = record {
  name = "mhpmevent3";
  mode = mrw;
  access = read_write;
  fields = [];
  ranges = [];
}

abbrev pub mcounteren : Block
mcounteren = record {
  name = "mcounteren";
  mode = mrw;
  access = bit_access;
  fields =
      field "MCOUNTEREN_CY" 0 1 0x1 0x1
      ∷ field "MCOUNTEREN_TM" 1 1 0x2 0x1
      ∷ field "MCOUNTEREN_IR" 2 1 0x4 0x1
      ∷ field "MCOUNTEREN_HPM" 3 29 0xfffffff8 0x1fffffff
      ∷ [];
  ranges = [];
}

abbrev pub scounteren : Block
scounteren = record {
  name = "scounteren";
  mode = srw;
  access = read_write;
  fields = [];
  ranges = [];
}

abbrev pub mscratch : Block
mscratch = record { name = "mscratch"; mode = mrw; access = read_write; fields = []; ranges = [] }

abbrev pub mepc : Block
mepc = record { name = "mepc"; mode = mrw; access = read_write; fields = []; ranges = [] }

abbrev pub mcause : Block
mcause = record {
  name = "mcause";
  mode = mrw;
  access = bit_access;
  fields = field "MCAUSE_INTERRUPT" (xlen - 1) 1 (0x1 * 2 ^ (xlen - 1)) 0x1 ∷ [];
  ranges = range_field "MCAUSE_EXCEPTION_CODE" 0 (xlen - 2) ∷ [];
}

abbrev pub mtval : Block
mtval = record { name = "mtval"; mode = mrw; access = read_write; fields = []; ranges = [] }

abbrev pub sscratch : Block
sscratch = record { name = "sscratch"; mode = srw; access = read_write; fields = []; ranges = [] }

abbrev pub sepc : Block
sepc = record { name = "sepc"; mode = srw; access = read_write; fields = []; ranges = [] }

abbrev pub scause : Block
scause = record {
  name = "scause";
  mode = srw;
  access = bit_access;
  fields = field "SCAUSE_INTERRUPT" (xlen - 1) 1 (0x1 * 2 ^ (xlen - 1)) 0x1 ∷ [];
  ranges = range_field "SCAUSE_EXCEPTION_CODE" 0 (xlen - 2) ∷ [];
}

abbrev pub sstatus : Block
sstatus = record {
  name = "sstatus";
  mode = srw;
  access = bit_access;
  fields =
      field "SSTATUS_SIE" 2 1 0x4 0x1
      ∷ field "SSTATUS_SPIE" 5 1 0x20 0x1
      ∷ field "SSTATUS_SPP" 8 1 0x100 0x1
      ∷ [];
  ranges = [];
}

abbrev pub stvec : Block
stvec = record {
  name = "stvec";
  mode = srw;
  access = bit_access;
  fields = field "STVEC_MODE" 0 2 0x3 0x3 ∷ [];
  ranges = range_field "STVEC_BASE" 2 (xlen - 1) ∷ [];
}

abbrev pub part2 : List Block
part2 =
    mcycle ∷ minstret ∷ mhpmcounter3 ∷ mhpmevent3 ∷ mcounteren ∷ scounteren ∷ mscratch ∷ mepc
    ∷ mcause ∷ mtval ∷ sscratch ∷ sepc ∷ scause ∷ sstatus ∷ stvec ∷ []
