-- ===== src/Csr/Blocks/Part6.antt =====
-- The sections of riscv-csr.h from mbound to minstreth, in the order of the file.
use caliptra_ss.Base.{List, [], ◌∷◌}
use caliptra_ss.Csr.Block.{Block, mrw, read_write}

abbrev pub mbound : Block
mbound = record { name = "mbound"; mode = mrw; access = read_write; fields = []; ranges = [] }

abbrev pub mibase : Block
mibase = record { name = "mibase"; mode = mrw; access = read_write; fields = []; ranges = [] }

abbrev pub mibound : Block
mibound = record { name = "mibound"; mode = mrw; access = read_write; fields = []; ranges = [] }

abbrev pub mdbase : Block
mdbase = record { name = "mdbase"; mode = mrw; access = read_write; fields = []; ranges = [] }

abbrev pub mdbound : Block
mdbound = record { name = "mdbound"; mode = mrw; access = read_write; fields = []; ranges = [] }

abbrev pub pmpcfg0 : Block
pmpcfg0 = record { name = "pmpcfg0"; mode = mrw; access = read_write; fields = []; ranges = [] }

abbrev pub pmpcfg1 : Block
pmpcfg1 = record { name = "pmpcfg1"; mode = mrw; access = read_write; fields = []; ranges = [] }

abbrev pub pmpcfg2 : Block
pmpcfg2 = record { name = "pmpcfg2"; mode = mrw; access = read_write; fields = []; ranges = [] }

abbrev pub pmpcfg3 : Block
pmpcfg3 = record { name = "pmpcfg3"; mode = mrw; access = read_write; fields = []; ranges = [] }

abbrev pub pmpaddr0 : Block
pmpaddr0 = record { name = "pmpaddr0"; mode = mrw; access = read_write; fields = []; ranges = [] }

abbrev pub pmpaddr1 : Block
pmpaddr1 = record { name = "pmpaddr1"; mode = mrw; access = read_write; fields = []; ranges = [] }

abbrev pub pmpaddr15 : Block
pmpaddr15 = record { name = "pmpaddr15"; mode = mrw; access = read_write; fields = []; ranges = [] }

abbrev pub mhpmcounter4 : Block
mhpmcounter4 = record {
  name = "mhpmcounter4";
  mode = mrw;
  access = read_write;
  fields = [];
  ranges = [];
}

abbrev pub mhpmcounter31 : Block
mhpmcounter31 = record {
  name = "mhpmcounter31";
  mode = mrw;
  access = read_write;
  fields = [];
  ranges = [];
}

abbrev pub mcycleh : Block
mcycleh = record { name = "mcycleh"; mode = mrw; access = read_write; fields = []; ranges = [] }

abbrev pub minstreth : Block
minstreth = record { name = "minstreth"; mode = mrw; access = read_write; fields = []; ranges = [] }

abbrev pub part6 : List Block
part6 =
    mbound ∷ mibase ∷ mibound ∷ mdbase ∷ mdbound ∷ pmpcfg0 ∷ pmpcfg1 ∷ pmpcfg2 ∷ pmpcfg3 ∷ pmpaddr0
    ∷ pmpaddr1 ∷ pmpaddr15 ∷ mhpmcounter4 ∷ mhpmcounter31 ∷ mcycleh ∷ minstreth ∷ []
