-- ===== src/Tcp/Server/Thread.antt =====
-- `server_create`, the socket thread's function, and the interface of tcp_server.c.
use caliptra_ss.Base.{
  ℕ, zero, suc, ◌+◌, ◌%◌, ◌^◌, true, not, Option, none, some, List, [], ◌∷◌, ◌++◌, ltb, ◌==◌,
  if◌then◌else◌,
}
use caliptra_ss.Tcp.Buffer.{TcpBuf, tcp_buffer_new, tcp_buffer_get_byte, tcp_buffer_put_byte}
use caliptra_ss.Tcp.Os.{Os, select}
use caliptra_ss.Tcp.Server.Monad.{
  Server, M, running, pure, branch, ◌>>=◌, ◌>>◌, get, call, interleave,
}
use caliptra_ss.Tcp.Server.Setup.{
  success, failure, start, client_tryaccept, stop, tcp_server_client_close,
}
use caliptra_ss.Tcp.Server.Transfer.{receive, transmit}

-- The descriptors put into `read_fds`.
unfoldable pub watched : Server → List ℕ
watched s = (if s.sfd == 0 then [] else s.sfd ∷ []) ++ (if s.cfd == 0 then [] else s.cfd ∷ [])

module _ (os : Os) (polls : ℕ) where
  -- The body of `while (ctx->socket_run)`. The four tests read the context as it is when they run:
  -- the second one names the client that `client_tryaccept` may just have accepted.
  unfoldable pub serve : M (Unit {0})
  unfolding watched
  serve = do
    s ← get
    fds ←
        call (select ((if ltb s.sfd s.cfd then s.cfd else s.sfd) + 1) (watched s)) os.select_returns
    branch fds.is_negative tcp_server_client_close (pure tt)
    s ← get
    branch (fds.is_set s.sfd) (client_tryaccept os >>= λ _. pure tt) (pure tt)
    s ← get
    branch (fds.is_set s.cfd) (receive os polls polls) (pure tt)
    s ← get
    branch (not (s.cfd == 0)) (transmit os polls polls) (pure tt)

  unfoldable pub serve_loop : ℕ → M (Unit {0})
  serve_loop zero s = running
  serve_loop (suc rounds) s =
      let rest : M (Unit {0}) = serve_loop rounds in
      (do interleave os; s ← get; branch s.socket_run (serve >> rest) (pure tt)) s

  -- Both ways out, the end of the loop and the failed start, clean up.
  unfoldable pub server_create : ℕ → M (Unit {0})
  unfolding serve_loop
  server_create rounds = do
    r ← start os
    elim r [ success ↦ serve_loop rounds | failure ↦ pure tt ]
    tcp_server_client_close
    stop

-- `tcp_server_create` up to the start of the thread; the arguments are what the allocations of the
-- two buffers return. The context comes from `calloc`: both descriptors are 0.
unfoldable pub tcp_server_create : Option (List ℕ) → Option (List ℕ) → ℕ → Option Server
tcp_server_create storage_in storage_out listen_port = elim (tcp_buffer_new storage_in) [
  | none ↦ none
  | some buf_in ↦ elim (tcp_buffer_new storage_out) [
    | none ↦ none
    | some buf_out ↦ some (record {
      listen_port = listen_port % 2 ^ 16;
      socket_run = true;
      buf_in = buf_in;
      buf_out = buf_out;
      sfd = 0;
      cfd = 0;
      log = [];
    })
  ]
]

-- What the simulation thread calls. `tcp_server_write` may wait for the socket thread: `other` is
-- what that thread does to the buffer between two polls, and `none` that the polls ran out.
unfoldable pub tcp_server_read : Server → Option ℕ × Server
tcp_server_read s = let (r, b) = tcp_buffer_get_byte s.buf_in in (r, record s { buf_in = b })

unfoldable pub tcp_server_write : (TcpBuf → TcpBuf) → ℕ → Server → ℕ → Option Server
tcp_server_write other polls s dat = elim (tcp_buffer_put_byte other polls s.buf_out dat) [
  | none ↦ none
  | some b ↦ some (record s { buf_out = b })
]
