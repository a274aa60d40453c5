-- ===== src/Csr/Blocks/Part8.antt =====
-- The sections of riscv-csr.h from hip to mtval2, in the order of the file.
use caliptra_ss.Base.{List, [], ◌∷◌}
use caliptra_ss.Csr.Block.{Block, hro, hrw, mrw, read_only, read_write}

abbrev pub hip : Block
hip = record { name = "hip"; mode = hrw; access = read_write; fields = []; ranges = [] }

abbrev pub htinst : Block
htinst = record { name = "htinst"; mode = hrw; access = read_write; fields = []; ranges = [] }

abbrev pub hgeip : Block
hgeip = record { name = "hgeip"; mode = hro; access = read_only; fields = []; ranges = [] }

abbrev pub mtinst : Block
mtinst = record { name = "mtinst"; mode = mrw; access = read_write; fields = []; ranges = [] }

abbrev pub mtval2 : Block
mtval2 = record { name = "mtval2"; mode = mrw; access = read_write; fields = []; ranges = [] }

abbrev pub part8 : List Block
part8 = hip ∷ htinst ∷ hgeip ∷ mtinst ∷ mtval2 ∷ []
