-- ===== src/Tcp/Lifetime.antt =====
-- The memory of src/mcu/test_suites/libs/tcp_server/tcp_server.c and of src/mcu/test_suites/libs/jtagdpi/jtagdpi.c: what
-- is allocated by the creating functions and freed by the closing ones. The contents of the blocks
-- are in Tcp/Server and Jtag; here a block is its address.
pub mod Freed
pub mod Tests
use caliptra_ss.Base.{
  ℕ, zero, suc, ◌+◌, Bool, true, false, ◌==◌, ◌||◌, if◌then◌else◌, Option, none, some, List, [],
  ◌∷◌,
}

-- The blocks that are allocated; addresses from `next` on have not been given out.
pub record Heap : Type 0 where
  pub live : List ℕ
  pub next : ℕ

-- `aborted`: an assertion fails. `fault`: the program uses memory that is not allocated.
pub data Outcome (A : Type 0) : Type 0 where
  done : A → Heap → Outcome A
  aborted fault : Outcome A

abbrev pub Mem : Type 0 → Type 0
Mem A = Heap → Outcome A

abbrev pub pure : {A : Type 0} → A → Mem A
pure a h = done a h

abbrev pub abort : {A : Type 0} → Mem A
abort h = aborted

abbrev pub crash : {A : Type 0} → Mem A
crash h = fault

infixl 5 ◌>>=◌ ◌>>◌
abbrev pub ◌>>=◌ : {A B : Type 0} → Mem A → (A → Mem B) → Mem B
◌>>=◌ m f h = elim (m h) [ done a h' ↦ f a h' | aborted ↦ aborted | fault ↦ fault ]

abbrev pub ◌>>◌ : {B : Type 0} → Mem (Unit {0}) → Mem B → Mem B
m >> k = m >>= λ _. k

abbrev pub is_live : ℕ → List ℕ → Bool
is_live p [] = false
is_live p (q ∷ qs) = (p == q) || is_live p qs

abbrev pub remove : ℕ → List ℕ → List ℕ
remove p [] = []
remove p (q ∷ qs) = if p == q then qs else q ∷ remove p qs

-- `malloc`, `calloc` and `strdup`: the system gives a block or none; `given` is its choice.
abbrev pub allocate : Bool → Mem (Option ℕ)
allocate given h =
    if given
    then done (some h.next) (record { live = h.next ∷ h.live; next = h.next + 1 })
    else done none h

-- `free`, which does nothing with NULL.
abbrev pub free : Option ℕ → Mem (Unit {0})
free none h = done tt h
free (some p) h = if is_live p h.live then done tt (record h { live = remove p h.live }) else fault

-- A read or a write of a member of the block.
abbrev pub use_block : ℕ → Mem (Unit {0})
use_block p h = if is_live p h.live then done tt h else fault

-- `struct tcp_server_ctx`, at `self`, and what it points to.
pub record ServerCtx : Type 0 where
  pub self : ℕ
  pub buf_in : Option ℕ
  pub buf_out : Option ℕ
  pub display_name : Option ℕ

-- The system's choices: which allocations it grants, and whether the thread starts.
pub record Grants : Type 0 where
  pub probe : Bool
  pub context : Bool
  pub buf_in : Bool
  pub buf_out : Bool
  pub display_name : Bool
  pub thread : Bool

-- The pointers of the new buffer are set with no test of what `malloc` returns.
unfoldable pub tcp_buffer_new : Bool → Mem ℕ
tcp_buffer_new given = do buf_new ← allocate given; elim buf_new [ none ↦ crash | some p ↦ pure p ]

-- The pointer to the freed buffer is set to NULL.
unfoldable pub tcp_buffer_free : Option ℕ → Mem (Option ℕ)
tcp_buffer_free buf = do free buf; pure none

unfoldable pub ctx_free : ServerCtx → Mem (Unit {0})
ctx_free ctx = do
  use_block ctx.self
  _ ← tcp_buffer_free ctx.buf_in
  _ ← tcp_buffer_free ctx.buf_out
  free ctx.display_name
  free (some ctx.self)

-- `assert(p)`
abbrev pub asserted : Option ℕ → Mem ℕ
asserted none = abort
asserted (some p) = pure p

unfoldable pub tcp_server_create : Grants → Mem (Option ServerCtx)
tcp_server_create g = do
  block ← allocate g.context
  self ← asserted block
  buf_in ← tcp_buffer_new g.buf_in
  buf_out ← tcp_buffer_new g.buf_out
  name ← allocate g.display_name
  display_name ← asserted name
  let ctx : ServerCtx = record {
    self = self;
    buf_in = some buf_in;
    buf_out = some buf_out;
    display_name = some display_name;
  }
  if g.thread then pure (some ctx) else (do ctx_free ctx; free (some self); pure none)

-- After the thread has ended.
unfoldable pub tcp_server_close : Option ServerCtx → Mem (Unit {0})
tcp_server_close none = crash
tcp_server_close (some ctx) = do use_block ctx.self; ctx_free ctx

-- `struct jtagdpi_ctx`, at the first address, with its `sock`.
unfoldable pub jtagdpi_create : Grants → Mem (ℕ × Option ServerCtx)
jtagdpi_create g = do
  block ← allocate g.probe
  ctx ← asserted block
  sock ← tcp_server_create g
  use_block ctx
  pure (ctx, sock)

unfoldable pub jtagdpi_close : Option (ℕ × Option ServerCtx) → Mem (Unit {0})
jtagdpi_close none = pure tt
jtagdpi_close (some (ctx, sock)) = do use_block ctx; tcp_server_close sock; free (some ctx)
