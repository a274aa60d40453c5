-- ===== src/Csr/Blocks/Part7.antt =====
-- The sections of riscv-csr.h from mhpmcounter3h to htval, in the order of the file.
use caliptra_ss.Base.{List, [], ◌∷◌}
use caliptra_ss.Csr.Block.{Block, drw, hrw, mrw, read_write}

abbrev pub mhpmcounter3h : Block
mhpmcounter3h = record {
  name = "mhpmcounter3h";
  mode = mrw;
  access = read_write;
  fields = [];
  ranges = [];
}

abbrev pub mhpmcounter4h : Block
mhpmcounter4h = record {
  name = "mhpmcounter4h";
  mode = mrw;
  access = read_write;
  fields = [];
  ranges = [];
}

abbrev pub mhpmcounter31h : Block
mhpmcounter31h = record {
  name = "mhpmcounter31h";
  mode = mrw;
  access = read_write;
  fields = [];
  ranges = [];
}

abbrev pub mhpmevent4 : Block
mhpmevent4 = record {
  name = "mhpmevent4";
  mode = mrw;
  access = read_write;
  fields = [];
  ranges = [];
}

abbrev pub mhpmevent31 : Block
mhpmevent31 = record {
  name = "mhpmevent31";
  mode = mrw;
  access = read_write;
  fields = [];
  ranges = [];
}

abbrev pub tselect : Block
tselect = record { name = "tselect"; mode = mrw; access = read_write; fields = []; ranges = [] }

abbrev pub tdata1 : Block
tdata1 = record { name = "tdata1"; mode = mrw; access = read_write; fields = []; ranges = [] }

abbrev pub tdata2 : Block
tdata2 = record { name = "tdata2"; mode = mrw; access = read_write; fields = []; ranges = [] }

abbrev pub tdata3 : Block
tdata3 = record { name = "tdata3"; mode = mrw; access = read_write; fields = []; ranges = [] }

abbrev pub dcsr : Block
dcsr = record { name = "dcsr"; mode = drw; access = read_write; fields = []; ranges = [] }

abbrev pub dpc : Block
dpc = record { name = "dpc"; mode = drw; access = read_write; fields = []; ranges = [] }

abbrev pub dscratch0 : Block
dscratch0 = record { name = "dscratch0"; mode = drw; access = read_write; fields = []; ranges = [] }

abbrev pub dscratch1 : Block
dscratch1 = record { name = "dscratch1"; mode = drw; access = read_write; fields = []; ranges = [] }

abbrev pub hie : Block
hie = record { name = "hie"; mode = hrw; access = read_write; fields = []; ranges = [] }

abbrev pub hgeie : Block
hgeie = record { name = "hgeie"; mode = hrw; access = read_write; fields = []; ranges = [] }

abbrev pub htval : Block
htval = record { name = "htval"; mode = hrw; access = read_write; fields = []; ranges = [] }

abbrev pub part7 : List Block
part7 =
    mhpmcounter3h ∷ mhpmcounter4h ∷ mhpmcounter31h ∷ mhpmevent4 ∷ mhpmevent31 ∷ tselect ∷ tdata1
    ∷ tdata2 ∷ tdata3 ∷ dcsr ∷ dpc ∷ dscratch0 ∷ dscratch1 ∷ hie ∷ hgeie ∷ htval ∷ []
