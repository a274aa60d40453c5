-- ===== src/Csr/Blocks/Part3.antt =====
-- The sections of riscv-csr.h from sideleg to frm, in the order of the file.
use caliptra_ss.Base.{◌-◌, ◌*◌, ◌^◌, List, [], ◌∷◌}
use caliptra_ss.Csr.Block.{Block, srw, urw, bit_access, read_write, range_field, xlen, field}

abbrev pub sideleg : Block
sideleg = record { name = "sideleg"; mode = srw; access = read_write; fields = []; ranges = [] }

abbrev pub sedeleg : Block
sedeleg = record { name = "sedeleg"; mode = srw; access = read_write; fields = []; ranges = [] }

abbrev pub sip : Block
sip = record {
  name = "sip";
  mode = srw;
  access = bit_access;
  fields =
      field "SIP_SSI" 1 1 0x2 0x1
      ∷ field "SIP_STI" 5 1 0x20 0x1
      ∷ field "SIP_SEI" 9 1 0x200 0x1
      ∷ field "SIP_USI" 0 1 0x1 0x1
      ∷ field "SIP_UTI" 4 1 0x10 0x1
      ∷ field "SIP_UEI" 8 1 0x100 0x1
      ∷ [];
  ranges = [];
}

abbrev pub sie : Block
sie = record {
  name = "sie";
  mode = srw;
  access = bit_access;
  fields =
      field "SIE_SSI" 1 1 0x2 0x1
      ∷ field "SIE_STI" 5 1 0x20 0x1
      ∷ field "SIE_SEI" 9 1 0x200 0x1
      ∷ field "SIE_USI" 0 1 0x1 0x1
      ∷ field "SIE_UTI" 4 1 0x10 0x1
      ∷ field "SIE_UEI" 8 1 0x100 0x1
      ∷ [];
  ranges = [];
}

abbrev pub ustatus : Block
ustatus = record {
  name = "ustatus";
  mode = urw;
  access = bit_access;
  fields = field "USTATUS_UIE" 1 1 0x2 0x1 ∷ field "USTATUS_UPIE" 3 1 0x8 0x1 ∷ [];
  ranges = [];
}

abbrev pub uip : Block
uip = record {
  name = "uip";
  mode = urw;
  access = bit_access;
  fields =
      field "UIP_USI" 0 1 0x1 0x1
      ∷ field "UIP_UTI" 4 1 0x10 0x1
      ∷ field "UIP_UEI" 8 1 0x100 0x1
      ∷ [];
  ranges = [];
}

abbrev pub uie : Block
uie = record {
  name = "uie";
  mode = urw;
  access = bit_access;
  fields =
      field "UIE_USI" 0 1 0x1 0x1
      ∷ field "UIE_UTI" 4 1 0x10 0x1
      ∷ field "UIE_UEI" 8 1 0x100 0x1
      ∷ [];
  ranges = [];
}

abbrev pub uscratch : Block
uscratch = record { name = "uscratch"; mode = urw; access = read_write; fields = []; ranges = [] }

abbrev pub uepc : Block
uepc = record { name = "uepc"; mode = urw; access = read_write; fields = []; ranges = [] }

abbrev pub ucause : Block
ucause = record {
  name = "ucause";
  mode = urw;
  access = bit_access;
  fields = field "UCAUSE_INTERRUPT" (xlen - 1) 1 (0x1 * 2 ^ (xlen - 1)) 0x1 ∷ [];
  ranges = range_field "UCAUSE_EXCEPTION_CODE" 0 (xlen - 2) ∷ [];
}

abbrev pub utvec : Block
utvec = record {
  name = "utvec";
  mode = urw;
  access = bit_access;
  fields = field "UTVEC_MODE" 0 2 0x3 0x3 ∷ [];
  ranges = range_field "UTVEC_BASE" 2 (xlen - 1) ∷ [];
}

abbrev pub utval : Block
utval = record { name = "utval"; mode = urw; access = read_write; fields = []; ranges = [] }

abbrev pub fflags : Block
fflags = record { name = "fflags"; mode = urw; access = read_write; fields = []; ranges = [] }

abbrev pub frm : Block
frm = record { name = "frm"; mode = urw; access = read_write; fields = []; ranges = [] }

abbrev pub part3 : List Block
part3 =
    sideleg ∷ sedeleg ∷ sip ∷ sie ∷ ustatus ∷ uip ∷ uie ∷ uscratch ∷ uepc ∷ ucause ∷ utvec ∷ utval
    ∷ fflags ∷ frm ∷ []
