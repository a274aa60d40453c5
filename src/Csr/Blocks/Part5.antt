-- ===== src/Csr/Blocks/Part5.antt =====
-- The sections of riscv-csr.h from hedeleg to mbase, in the order of the file.
use caliptra_ss.Base.{List, [], ◌∷◌}
use caliptra_ss.Csr.Block.{Block, hrw, mrw, read_write}

abbrev pub hedeleg : Block
hedeleg = record { name = "hedeleg"; mode = hrw; access = read_write; fields = []; ranges = [] }

abbrev pub hideleg : Block
hideleg = record { name = "hideleg"; mode = hrw; access = read_write; fields = []; ranges = [] }

abbrev pub hcounteren : Block
hcounteren = record {
  name = "hcounteren";
  mode = hrw;
  access = read_write;
  fields = [];
  ranges = [];
}

abbrev pub hgatp : Block
hgatp = record { name = "hgatp"; mode = hrw; access = read_write; fields = []; ranges = [] }

abbrev pub htimedelta : Block
htimedelta = record {
  name = "htimedelta";
  mode = hrw;
  access = read_write;
  fields = [];
  ranges = [];
}

abbrev pub htimedeltah : Block
htimedeltah = record {
  name = "htimedeltah";
  mode = hrw;
  access = read_write;
  fields = [];
  ranges = [];
}

abbrev pub vsstatus : Block
vsstatus = record { name = "vsstatus"; mode = hrw; access = read_write; fields = []; ranges = [] }

abbrev pub vsie : Block
vsie = record { name = "vsie"; mode = hrw; access = read_write; fields = []; ranges = [] }

abbrev pub vstvec : Block
vstvec = record { name = "vstvec"; mode = hrw; access = read_write; fields = []; ranges = [] }

abbrev pub vsscratch : Block
vsscratch = record { name = "vsscratch"; mode = hrw; access = read_write; fields = []; ranges = [] }

abbrev pub vsepc : Block
vsepc = record { name = "vsepc"; mode = hrw; access = read_write; fields = []; ranges = [] }

abbrev pub vscause : Block
vscause = record { name = "vscause"; mode = hrw; access = read_write; fields = []; ranges = [] }

abbrev pub vstval : Block
vstval = record { name = "vstval"; mode = hrw; access = read_write; fields = []; ranges = [] }

abbrev pub vsip : Block
vsip = record { name = "vsip"; mode = hrw; access = read_write; fields = []; ranges = [] }

abbrev pub vsatp : Block
vsatp = record { name = "vsatp"; mode = hrw; access = read_write; fields = []; ranges = [] }

abbrev pub mbase : Block
mbase = record { name = "mbase"; mode = mrw; access = read_write; fields = []; ranges = [] }

abbrev pub part5 : List Block
part5 =
    hedeleg ∷ hideleg ∷ hcounteren ∷ hgatp ∷ htimedelta ∷ htimedeltah ∷ vsstatus ∷ vsie ∷ vstvec
    ∷ vsscratch ∷ vsepc ∷ vscause ∷ vstval ∷ vsip ∷ vsatp ∷ mbase ∷ []
