-- ===== src/Firmware.antt =====
-- How the firmware meets the hardware: every instruction that reads or changes something outside the
-- program is an event, and what a read returns is the hardware's choice. The hardware is not in C:
-- it is an argument, `Hw`, whose answers may depend on the whole history. `lsu_read_32` and
-- `lsu_write_32` are those of src/integration/test_suites/libs/riscv_hw_if/riscv_hw_if.h.
use Prim.Native.String.{String}
use caliptra_ss.Base.{ℕ, Bool, true, false, List, [], ◌∷◌, ◌≡◌, ◌∙◌, ap}

-- A register is named as in the instruction. The forms with an immediate mask do the same as those
-- with a mask in a register.
pub data Event : Type 0 where
  csrr : String → Event
  csrrw csrrs csrrc : String → ℕ → Event
  load : ℕ → Event
  store : ℕ → ℕ → Event
  put_stdout : ℕ → Event
  fence fence_i : Event

-- Newest first.
abbrev pub Trace : Type 0
Trace = List Event

pub record Hw : Type 0 where
  pub csr_value : Trace → String → ℕ
  pub mem_value : Trace → ℕ → ℕ

-- `hung`: the program has entered `while (1);`, or a loop has used up its rounds.
pub data Run (A : Type 0) : Type 0 where
  done : A → Trace → Run A
  hung : Trace → Run A

abbrev pub Fw : Type 0 → Type 0
Fw A = Trace → Run A

abbrev pub pure : {A : Type 0} → A → Fw A
pure a t = done a t

infixl 5 ◌>>=◌ ◌>>◌
abbrev pub ◌>>=◌ : {A B : Type 0} → Fw A → (A → Fw B) → Fw B
◌>>=◌ m f t = elim (m t) [ done a t' ↦ f a t' | hung t' ↦ hung t' ]

abbrev pub ◌>>◌ : {B : Type 0} → Fw (Unit {0}) → Fw B → Fw B
m >> k = m >>= λ _. k

abbrev pub emit : Event → Fw (Unit {0})
emit e t = done tt (e ∷ t)

abbrev pub hang : {A : Type 0} → Fw A
hang t = hung t

abbrev pub branch : {A : Type 0} → Bool → Fw A → Fw A → Fw A
branch b m n t = elim b [ true ↦ m t | false ↦ n t ]

abbrev pub lsu_write_32 : ℕ → ℕ → Fw (Unit {0})
lsu_write_32 addr data' = emit (store addr data')

abbrev pub lsu_read_32 : Hw → ℕ → Fw ℕ
lsu_read_32 hw addr t = done (hw.mem_value t addr) (load addr ∷ t)

-- What a run that has come to `r` goes on to.
abbrev after : Run (Unit {0}) → Fw (Unit {0}) → Run (Unit {0})
after r k = ((λ _. r) >> k) []

-- A first part that returns, then the rest.
pub and_then :
    (m k : Fw (Unit {0})) (t t' : Trace) {r : Run (Unit {0})}
    → m t ≡ done tt t'
    → k t' ≡ r
    → (m >> k) t ≡ r
and_then m k t t' e rest = ap (λ (r : Run (Unit {0})). after r k) e ∙ rest

-- A first part that does not return.
pub and_hung : (m k : Fw (Unit {0})) (t t' : Trace) → m t ≡ hung t' → (m >> k) t ≡ hung t'
and_hung m k t t' e = ap (λ (r : Run (Unit {0})). after r k) e
