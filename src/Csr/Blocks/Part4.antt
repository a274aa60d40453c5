-- ===== src/Csr/Blocks/Part4.antt =====
-- The sections of riscv-csr.h from fcsr to hstatus, in the order of the file.
use caliptra_ss.Base.{List, [], ◌∷◌}
use caliptra_ss.Csr.Block.{Block, hrw, srw, uro, urw, read_only, read_write}

abbrev pub fcsr : Block
fcsr = record { name = "fcsr"; mode = urw; access = read_write; fields = []; ranges = [] }

abbrev pub cycle : Block
cycle = record { name = "cycle"; mode = uro; access = read_only; fields = []; ranges = [] }

abbrev pub time : Block
time = record { name = "time"; mode = uro; access = read_only; fields = []; ranges = [] }

abbrev pub instret : Block
instret = record { name = "instret"; mode = uro; access = read_only; fields = []; ranges = [] }

abbrev pub hpmcounter3 : Block
hpmcounter3 = record {
  name = "hpmcounter3";
  mode = uro;
  access = read_only;
  fields = [];
  ranges = [];
}

abbrev pub hpmcounter4 : Block
hpmcounter4 = record {
  name = "hpmcounter4";
  mode = uro;
  access = read_only;
  fields = [];
  ranges = [];
}

abbrev pub hpmcounter31 : Block
hpmcounter31 = record {
  name = "hpmcounter31";
  mode = uro;
  access = read_only;
  fields = [];
  ranges = [];
}

abbrev pub cycleh : Block
cycleh = record { name = "cycleh"; mode = uro; access = read_only; fields = []; ranges = [] }

abbrev pub timeh : Block
timeh = record { name = "timeh"; mode = uro; access = read_only; fields = []; ranges = [] }

abbrev pub instreth : Block
instreth = record { name = "instreth"; mode = uro; access = read_only; fields = []; ranges = [] }

abbrev pub hpmcounter3h : Block
hpmcounter3h = record {
  name = "hpmcounter3h";
  mode = uro;
  access = read_only;
  fields = [];
  ranges = [];
}

abbrev pub hpmcounter4h : Block
hpmcounter4h = record {
  name = "hpmcounter4h";
  mode = uro;
  access = read_only;
  fields = [];
  ranges = [];
}

abbrev pub hpmcounter31h : Block
hpmcounter31h = record {
  name = "hpmcounter31h";
  mode = uro;
  access = read_only;
  fields = [];
  ranges = [];
}

abbrev pub stval : Block
stval = record { name = "stval"; mode = srw; access = read_write; fields = []; ranges = [] }

abbrev pub satp : Block
satp = record { name = "satp"; mode = srw; access = read_write; fields = []; ranges = [] }

abbrev pub hstatus : Block
hstatus = record { name = "hstatus"; mode = hrw; access = read_write; fields = []; ranges = [] }

abbrev pub part4 : List Block
part4 =
    fcsr ∷ cycle ∷ time ∷ instret ∷ hpmcounter3 ∷ hpmcounter4 ∷ hpmcounter31 ∷ cycleh ∷ timeh
    ∷ instreth ∷ hpmcounter3h ∷ hpmcounter4h ∷ hpmcounter31h ∷ stval ∷ satp ∷ hstatus ∷ []
