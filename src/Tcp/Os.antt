-- ===== src/Tcp/Os.antt =====
-- What tcp_server.c asks of the operating system and of the other thread. Neither is in the
-- repository: both are an argument, `Os`, of every function that uses them, and their answers
-- may depend on the whole history of calls.
use caliptra_ss.Base.{ℕ, Bool, List}

-- The values of `errno` that the code tells apart.
pub data Errno : Type 0 where
  eagain ewouldblock ebadf epipe : Errno
  other : ℕ → Errno

-- A call that returns a descriptor, or -1 and an `errno`.
pub data FdReturn : Type 0 where
  fd : ℕ → FdReturn
  error : Errno → FdReturn

-- `read` of one byte.
pub data ReadReturn : Type 0 where
  end_of_file : ReadReturn
  byte : ℕ → ReadReturn
  error : Errno → ReadReturn

-- `send` of one byte: how many were written.
pub data SendReturn : Type 0 where
  written : ℕ → SendReturn
  error : Errno → SendReturn

-- `select`: whether it returned a negative number, and the set `read_fds` as it leaves it.
pub record SelectReturn : Type 0 where
  pub is_negative : Bool
  pub is_set : ℕ → Bool

-- The calls, with the arguments that vary. `yield` is no call: it marks a point at which the
-- simulation thread may run.
pub data Call : Type 0 where
  socket yield : Call
  set_nonblock set_reuseaddr set_nodelay close accept read : ℕ → Call
  bind listen send : ℕ → ℕ → Call
  select : ℕ → List ℕ → Call

-- Newest first.
abbrev pub Log : Type 0
Log = List Call

-- What the simulation thread does to the server: take a byte of `buf_in`, put a byte into
-- `buf_out` (where there is no room it waits, and does nothing), clear `socket_run`.
pub data HostOp : Type 0 where
  take_in : HostOp
  put_out : ℕ → HostOp
  stop_running : HostOp

-- A Boolean answer is `rv == 0`.
pub record Os : Type 0 where
  pub socket_returns : Log → FdReturn
  pub nonblock_succeeds : Log → Bool
  pub reuseaddr_succeeds : Log → Bool
  pub nodelay_succeeds : Log → Bool
  pub bind_succeeds : Log → Bool
  pub listen_succeeds : Log → Bool
  pub accept_returns : Log → FdReturn
  pub read_returns : Log → ReadReturn
  pub send_returns : Log → SendReturn
  pub select_returns : Log → SelectReturn
  pub host_runs : Log → List HostOp
