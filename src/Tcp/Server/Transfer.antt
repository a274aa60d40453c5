-- ===== src/Tcp/Server/Transfer.antt =====
-- `get_byte` and `put_byte`, and the two inner loops of `server_create`. Each loop takes the number
-- of rounds that it may make; `running` means that it has not ended by then.
use caliptra_ss.Base.{ℕ, zero, suc, Option, none, some, leb}
use caliptra_ss.Tcp.Buffer.{tcp_buffer_is_full, store_byte, tcp_buffer_get_byte}
use caliptra_ss.Tcp.Os.{Os, eagain, ewouldblock, ebadf, epipe, ReadReturn, SendReturn, read, send}
use caliptra_ss.Tcp.Server.Monad.{
  M, running, pure, abort, branch, ◌>>=◌, ◌>>◌, get, modify, call, interleave,
}
use caliptra_ss.Tcp.Server.Setup.{tcp_server_client_close}

module _ (os : Os) where
  -- `none` is the return of `false`. EOF is one: the descriptor stays open.
  unfoldable pub get_byte : M (Option ℕ)
  get_byte = do
    s ← get
    r ← call (read s.cfd) os.read_returns
    elim r [
      | ReadReturn.end_of_file ↦ pure none
      | ReadReturn.byte b ↦ pure (some b)
      | ReadReturn.error eagain ↦ pure none
      | ReadReturn.error ewouldblock ↦ pure none
      | ReadReturn.error ebadf ↦ tcp_server_client_close >> pure none
      | ReadReturn.error e ↦ abort
    ]

  -- `while (1)`: EAGAIN and a send of nothing go round again.
  unfoldable pub put_byte : ℕ → ℕ → M (Unit {0})
  put_byte zero cmd s = running
  put_byte (suc rounds) cmd s =
      let again : M (Unit {0}) = put_byte rounds cmd in
      (do
        s ← get
        r ← call (send s.cfd cmd) os.send_returns
        elim r [
          | SendReturn.written n ↦ branch (leb 1 n) (pure tt) again
          | SendReturn.error eagain ↦ again
          | SendReturn.error ewouldblock ↦ again
          | SendReturn.error epipe ↦ tcp_server_client_close
          | SendReturn.error e ↦ abort
        ])
        s

  -- `tcp_buffer_put_byte(ctx->buf_in, …)` as the socket thread runs it: the simulation thread may
  -- run before each poll.
  unfoldable pub put_in : ℕ → ℕ → M (Unit {0})
  put_in zero dat s = running
  put_in (suc polls) dat s =
      let spin : M (Unit {0}) = put_in polls dat in
      (do
        interleave os
        s ← get
        let store = modify (λ s. record s { buf_in = store_byte s.buf_in dat })
        branch (tcp_buffer_is_full s.buf_in) spin store)
        s

  -- `while (get_byte(ctx, &xfer_data)) tcp_buffer_put_byte(ctx->buf_in, xfer_data);`
  unfoldable pub receive : ℕ → ℕ → M (Unit {0})
  receive polls zero s = running
  receive polls (suc rounds) s =
      let rest : M (Unit {0}) = receive polls rounds in
      (do r ← get_byte; elim r [ none ↦ pure tt | some x ↦ put_in polls x >> rest ]) s

  -- `while (tcp_buffer_get_byte(ctx->buf_out, &xfer_data)) put_byte(ctx, xfer_data);`
  unfoldable pub transmit : ℕ → ℕ → M (Unit {0})
  transmit polls zero s = running
  transmit polls (suc rounds) s =
      let rest : M (Unit {0}) = transmit polls rounds in
      (do
        interleave os
        s ← get
        let (r, buf) = tcp_buffer_get_byte s.buf_out
        modify (λ s. record s { buf_out = buf })
        elim r [ none ↦ pure tt | some x ↦ put_byte polls x >> rest ])
        s
