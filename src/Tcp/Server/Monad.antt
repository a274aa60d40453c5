-- ===== src/Tcp/Server/Monad.antt =====
-- The server's state, and the monad in which its functions run.
use caliptra_ss.Base.{
  ℕ, Bool, true, false, List, [], ◌∷◌, if◌then◌else◌, ◌≡◌, ◌⊎◌, inl, inr, refl, arith,
}
use caliptra_ss.Tcp.Buffer.{TcpBuf, tcp_buffer_is_full, store_byte, tcp_buffer_get_byte}
use caliptra_ss.Tcp.Os.{Call, Log, HostOp, take_in, put_out, stop_running, Os, yield}

-- `sfd` and `cfd` are 0 where there is no socket. `log` records the calls made so far.
pub record Server : Type 0 where
  pub listen_port : ℕ
  pub socket_run : Bool
  pub buf_in : TcpBuf
  pub buf_out : TcpBuf
  pub sfd : ℕ
  pub cfd : ℕ
  pub log : Log

-- `aborted`: an `assert` failed. `running`: the rounds given to a loop ran out.
pub data Outcome (A : Type 0) : Type 0 where
  done : A → Server → Outcome A
  aborted running : Outcome A

pub Outcome-cases :
    {A : Type 0} (r : Outcome A)
    → ((a : A) × (s : Server) × (r ≡ done a s)) ⊎ ((r ≡ aborted) ⊎ (r ≡ running))
Outcome-cases (done a s) = inl (a, s, refl)
Outcome-cases aborted = inr (inl refl)
Outcome-cases running = inr (inr refl)

abbrev pub M : Type 0 → Type 0
M A = Server → Outcome A

abbrev pub pure : {A : Type 0} → A → M A
pure a s = done a s

abbrev pub abort : {A : Type 0} → M A
abort s = aborted

infixl 5 ◌>>=◌ ◌>>◌
abbrev pub ◌>>=◌ : {A B : Type 0} → M A → (A → M B) → M B
◌>>=◌ m f s = elim (m s) [ done a s' ↦ f a s' | aborted ↦ aborted | running ↦ running ]

-- A chain that ends has ended in its first part, and then in the second.
pub >>=-eq-done :
    {A B : Type 0} (m : M A) (f : A → M B) {s s' : Server} {b : B}
    → (m >>= f) s ≡ done b s'
    → (a : A) × (s₁ : Server) × (m s ≡ done a s₁) × (f a s₁ ≡ done b s')
>>=-eq-done m f {s} e = elim (Outcome-cases (m s)) [
  | inl (a, s₁, r) ↦ (a, s₁, r, ground arith)
  | inr (inl r) ↦ ground arith
  | inr (inr r) ↦ ground arith
]

abbrev pub ◌>>◌ : {B : Type 0} → M (Unit {0}) → M B → M B
m >> k = m >>= λ _. k

abbrev pub get : M Server
get s = done s s

abbrev pub modify : (Server → Server) → M (Unit {0})
modify f s = done tt (f s)

abbrev pub assert : Bool → M (Unit {0})
assert b s = elim b [ true ↦ done tt s | false ↦ aborted ]

-- A conditional on commands.
abbrev pub branch : {A : Type 0} → Bool → M A → M A → M A
branch b m n s = elim b [ true ↦ m s | false ↦ n s ]

-- Make a call: the answer depends on the history before it.
abbrev pub call : {A : Type 0} → Call → (Log → A) → M A
call c answer s = done (answer s.log) (record s { log = c ∷ s.log })

unfoldable pub host_step : HostOp → Server → Server
host_step take_in s = record s { buf_in = (tcp_buffer_get_byte s.buf_in).1 }
host_step (put_out x) s =
    if tcp_buffer_is_full s.buf_out then s else record s { buf_out = store_byte s.buf_out x }
host_step stop_running s = record s { socket_run = false }

unfoldable pub host_steps : List HostOp → Server → Server
unfolding host_step
host_steps [] s = s
host_steps (op ∷ ops) s = host_steps ops (host_step op s)

-- The simulation thread runs for a while.
unfoldable pub interleave : Os → M (Unit {0})
interleave os s = done tt (host_steps (os.host_runs s.log) (record s { log = yield ∷ s.log }))
