-- ===== src/Tcp/Tests.antt =====
-- Runs of the buffer and of the server on concrete inputs.
use caliptra_ss.Base.{
  leb, length, ◌≤◌, List, ℕ, ◌≡◌, refl, true, false, some, [], ◌∷◌, arith, replicate,
  length-replicate, ◌<◌, ◌++◌, get_or, if◌then◌else◌, ◌==◌,
}
use caliptra_ss.Tcp.Queue
use caliptra_ss.Tcp.Queue.{Turn, writes, reads, received}
use caliptra_ss.Tcp.Buffer.{TcpBuf, tcp_buffer_is_full, tcp_buffer_put_byte, tcp_buffer_get_byte}
use caliptra_ss.Tcp.Buffer.Inv.{IsValid, used}
use caliptra_ss.Tcp.Buffer.Refine.{contents}
use caliptra_ss.Tcp.Buffer.Spin.{taker, run_uses, put_byte-taker}
use caliptra_ss.Tcp.Buffer.Uses.{abstract_left, run_uses_refines, advance_wptr, wrap_wptr, torn_put}
use caliptra_ss.Tcp.Os.{
  Os, FdReturn, ReadReturn, SendReturn, eagain, put_out, stop_running, socket, set_nonblock,
  set_reuseaddr, set_nodelay, bind, listen,
}
use caliptra_ss.Tcp.Server.Monad.{Server, aborted, done}
use caliptra_ss.Tcp.Server.Setup.{start, listen_on}
use caliptra_ss.Tcp.Server.Thread.{serve, server_create}
use caliptra_ss.Tcp.Server.Lifecycle.{closes, start_failure, second_client}
use caliptra_ss.Tcp.Server.Host.{asks_end}
use caliptra_ss.Tcp.Server.Ends.{IsDeserted, server_create-ends}

abbrev pub buffer_at : ℕ → ℕ → TcpBuf
buffer_at rptr wptr = record { rptr = rptr; wptr = wptr; buf = replicate 1024 0 }

pub buffer_at-IsValid : (rptr wptr : ℕ) → rptr < 1024 → wptr < 1024 → IsValid (buffer_at rptr wptr)
buffer_at-IsValid rptr wptr h k = record {
  storage = length-replicate {A = ℕ} 1024 0;
  rptr_in = h;
  wptr_in = k;
}

-- A buffer that is full at first: the writer polls in vain, the reader makes room, the writer goes on.
abbrev turns : List Turn
turns = writes ∷ reads ∷ writes ∷ writes ∷ []

run_uses_refines_example :
    (abstract_left (run_uses (buffer_at 4 3) (7 ∷ 8 ∷ []) turns)
      ≡ Queue.run (contents (buffer_at 4 3)) (7 ∷ 8 ∷ []) turns)
    × (received (run_uses (buffer_at 4 3) (7 ∷ 8 ∷ []) turns).returns
          ++ (contents (run_uses (buffer_at 4 3) (7 ∷ 8 ∷ []) turns).left
              ++ (run_uses (buffer_at 4 3) (7 ∷ 8 ∷ []) turns).waiting)
        ≡ contents (buffer_at 4 3) ++ (7 ∷ 8 ∷ []))
run_uses_refines_example =
    run_uses_refines (7 ∷ 8 ∷ []) turns {b = buffer_at 4 3}
      (buffer_at-IsValid 4 3 (omega arith) (omega arith))

put_byte-taker_example :
    (b' : TcpBuf) × (tcp_buffer_put_byte taker 2 (buffer_at 4 3) 7 ≡ some b')
    × IsValid b'
    × (contents b'
        ≡ (if tcp_buffer_is_full (buffer_at 4 3)
            then (Queue.get (contents (buffer_at 4 3))).1
            else contents (buffer_at 4 3))
          ++ (7 ∷ []))
put_byte-taker_example =
    put_byte-taker {b = buffer_at 4 3} 7 (buffer_at-IsValid 4 3 (omega arith) (omega arith))

torn_put_example :
    let b₁ = advance_wptr (buffer_at 1023 1023) 7 in
    let (r₁, b₂) = tcp_buffer_get_byte b₁ in
    let (r₂, b₃) = tcp_buffer_get_byte b₂ in
    (contents (buffer_at 1023 1023) ≡ [])
    × (r₁ ≡ some 7)
    × (r₂ ≡ some (get_or (buffer_at 1023 1023).buf 0 0))
    × (used (wrap_wptr b₃) ≡ 1023)
torn_put_example =
    torn_put {b = buffer_at 1023 1023} 7 (buffer_at-IsValid 1023 1023 (omega arith) (omega arith))
      refl refl

-- A system on which every call succeeds and the sockets are 3 and 4; the simulation has asked for
-- the end.
abbrev quiet : Os
quiet = record {
  socket_returns = λ log. FdReturn.fd 3;
  nonblock_succeeds = λ log. true;
  reuseaddr_succeeds = λ log. true;
  nodelay_succeeds = λ log. true;
  bind_succeeds = λ log. true;
  listen_succeeds = λ log. true;
  accept_returns = λ log. FdReturn.fd 4;
  read_returns = λ log. ReadReturn.end_of_file;
  send_returns = λ log. SendReturn.written 1;
  select_returns = λ log. record { is_negative = false; is_set = λ fd. fd == 3 };
  host_runs = λ log. stop_running ∷ [];
}

abbrev busy_port : Os
busy_port = record quiet { bind_succeeds = λ log. false }

abbrev fresh : Server
fresh = record {
  listen_port = 4567;
  socket_run = true;
  buf_in = buffer_at 0 0;
  buf_out = buffer_at 0 0;
  sfd = 0;
  cfd = 0;
  log = [];
}

abbrev listening : Server
listening = record fresh {
  sfd = 3;
  log = listen 3 1 ∷ bind 3 4567 ∷ set_nodelay 3 ∷ set_reuseaddr 3 ∷ set_nonblock 3 ∷ socket ∷ [];
}

abbrev failed_start : Server
failed_start = record fresh {
  log = bind 3 4567 ∷ set_nodelay 3 ∷ set_reuseaddr 3 ∷ set_nonblock 3 ∷ socket ∷ [];
}

start_failure_example :
    (failed_start ≡ record fresh { log = failed_start.log })
    × (failed_start.sfd ≡ 0)
    × ((d : ℕ) → closes d failed_start.log ≡ closes d [])
start_failure_example = start_failure busy_port fresh failed_start (unfold start listen_on in refl)

abbrev two_clients : Server
two_clients = record listening { cfd = 4 }

second_client_example : serve quiet 5 two_clients ≡ aborted
second_client_example =
    second_client quiet 5 two_clients (λ e. omega arith) (λ e. omega arith) refl refl

-- Nobody connects; the simulation puts a byte whenever it runs, and asks for the end after twelve calls.
abbrev lonely : Os
lonely = record quiet {
  accept_returns = λ log. FdReturn.error eagain;
  host_runs =
      λ log. if leb 12 (length log) then put_out 65 ∷ stop_running ∷ [] else put_out 65 ∷ [];
}

ends_after :
    (m : ℕ)
    → 12 ≤ m
    → asks_end (if leb 12 m then put_out 65 ∷ stop_running ∷ [] else put_out 65 ∷ []) ≡ true
ends_after m h = ground arith

lonely-IsDeserted : IsDeserted lonely 12
lonely-IsDeserted = record {
  no_fd_0 = λ log e. ground (arith, e);
  no_connection = λ log. refl;
  no_client = λ log. refl;
  ends = λ log h. ends_after (length log) h;
}

server_create-ends_example :
    (s' : Server) × (server_create lonely 5 13 fresh ≡ done tt s') × (s'.sfd ≡ 0) × (s'.cfd ≡ 0)
server_create-ends_example = server_create-ends lonely 12 5 fresh lonely-IsDeserted refl refl
