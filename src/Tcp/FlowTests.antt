-- ===== src/Tcp/FlowTests.antt =====
-- A client that sends two bytes and takes what it is sent, and one that goes away.
use caliptra_ss.Base.{
  ℕ, zero, suc, ◌<◌, ◌≡◌, refl, inl, true, false, [], ◌∷◌, ◌++◌, arith, length, replicate,
  length-replicate, ap, ◌==◌, if◌then◌else◌,
}
use caliptra_ss.Tcp.Buffer.{TcpBuf}
use caliptra_ss.Tcp.Buffer.Inv.{IsValid}
use caliptra_ss.Tcp.Buffer.Refine.{contents}
use caliptra_ss.Tcp.Os.{Os, Log, read, FdReturn, ReadReturn, SendReturn, eagain, epipe, other}
use caliptra_ss.Tcp.Server.Monad.{Server, done}
use caliptra_ss.Tcp.Server.Flow.{sent}
use caliptra_ss.Tcp.Server.Pass.{serve_lem}
use caliptra_ss.Tcp.Server.Thread.{serve}

abbrev reads : Log → ℕ
reads [] = 0
reads (read d ∷ log) = suc (reads log)
reads (_ ∷ log) = reads log

abbrev nth_read : ℕ → ℕ → ℕ → ReadReturn
nth_read x y zero = ReadReturn.byte x
nth_read x y (suc zero) = ReadReturn.byte y
nth_read x y _ = ReadReturn.error eagain

-- A client that sends `x` and `y`.
abbrev pub client : ℕ → ℕ → Os
client x y = record {
  socket_returns = λ log. FdReturn.fd 3;
  nonblock_succeeds = λ log. true;
  reuseaddr_succeeds = λ log. true;
  nodelay_succeeds = λ log. true;
  bind_succeeds = λ log. true;
  listen_succeeds = λ log. true;
  accept_returns = λ log. FdReturn.fd 4;
  read_returns = λ log. nth_read x y (reads log);
  send_returns = λ log. SendReturn.written 1;
  select_returns = λ log. record { is_negative = false; is_set = λ fd. fd == 4 };
  host_runs = λ log. [];
}

abbrev empty : TcpBuf
empty = record { rptr = 0; wptr = 0; buf = replicate 1024 0 }

empty-IsValid : IsValid empty
empty-IsValid = record {
  storage = length-replicate {A = ℕ} 1024 0;
  rptr_in = omega arith;
  wptr_in = omega arith;
}

abbrev two : TcpBuf
two = record { rptr = 0; wptr = 2; buf = 49 ∷ 48 ∷ replicate 1022 0 }

two-IsValid : IsValid two
two-IsValid = record {
  storage = ap (λ (n : ℕ). suc (suc n)) (length-replicate {A = ℕ} 1022 0);
  rptr_in = omega arith;
  wptr_in = omega arith;
}

abbrev server : TcpBuf → Server
server buf_out = record {
  listen_port = 4567;
  socket_run = true;
  buf_in = empty;
  buf_out = buf_out;
  sfd = 3;
  cfd = 4;
  log = [];
}

-- Two bytes come in, and the two that wait go out.
serve_lem_example :
    (s' : Server) × (serve (client 53 82) 3 (server two) ≡ done tt s')
    × (contents s'.buf_in ≡ [] ++ 53 ∷ 82 ∷ [])
    × IsValid s'.buf_in
    × (contents s'.buf_out ≡ [])
    × IsValid s'.buf_out
    × (sent 4 s'.log ≡ [] ++ 49 ∷ 48 ∷ [])
    × (s'.cfd ≡ 4)
    × (s'.sfd ≡ 3)
    × (0 < length s'.log)
serve_lem_example =
    serve_lem (client 53 82) 2 (server two) (53 ∷ 82 ∷ []) (λ e. omega arith) refl refl
      (inl (refl, (refl, refl, (refl, refl, inl refl)))) (λ l. refl) (λ l. refl) empty-IsValid
      (omega arith) (omega arith) two-IsValid (omega arith)

-- Descriptor 4 is a socket whose client is gone, and 0 is no socket: ENOTSOCK is 88.
abbrev gone : Os
gone = record (client 53 82) { send_returns = λ log. after_close log }
  where
    after_close : Log → SendReturn
    after_close log =
        if length log == 1 then SendReturn.error epipe else SendReturn.error (other 88)
