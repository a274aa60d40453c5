-- ===== src/Tcp/Server/Setup.antt =====
-- `start`, `client_tryaccept`, `stop` and `tcp_server_client_close`.
use caliptra_ss.Base.{ℕ, not, ◌==◌}
use caliptra_ss.Tcp.Os.{
  Os, eagain, FdReturn, socket, set_nonblock, set_reuseaddr, set_nodelay, bind, listen, accept,
  close,
}
use caliptra_ss.Tcp.Server.Monad.{M, pure, ◌>>=◌, ◌>>◌, get, modify, assert, branch, call}

-- The returns 0 and -1.
pub data Status : Type 0 where
  success failure : Status

-- The returns 0, -EAGAIN and -1 of `client_tryaccept`.
pub data Accepted : Type 0 where
  connected try_again failed : Accepted

module _ (os : Os) where
  -- `start` once it has a socket: each call that fails returns -1 at once.
  unfoldable pub listen_on : ℕ → ℕ → M Status
  listen_on port sfd = do
    nonblock ← call (set_nonblock sfd) os.nonblock_succeeds
    branch (not nonblock) (pure failure) (do
      reuse ← call (set_reuseaddr sfd) os.reuseaddr_succeeds
      branch (not reuse) (pure failure) (do
        nodelay ← call (set_nodelay sfd) os.nodelay_succeeds
        branch (not nodelay) (pure failure) (do
          bound ← call (bind sfd port) os.bind_succeeds
          branch (not bound) (pure failure) (do
            listening ← call (listen sfd 1) os.listen_succeeds
            branch (not listening) (pure failure)
                (do modify (λ s. record s { sfd = sfd }); assert (not (sfd == 0)); pure success)))))

  unfoldable pub start : M Status
  unfolding listen_on
  start = do
    s ← get
    assert (s.sfd == 0)
    r ← call socket os.socket_returns
    elim r [ FdReturn.error e ↦ pure failure | FdReturn.fd sfd ↦ listen_on s.listen_port sfd ]

  -- The listening socket is non-blocking, so no connection is EAGAIN.
  unfoldable pub client_tryaccept : M Accepted
  client_tryaccept = do
    s ← get
    assert (not (s.sfd == 0))
    assert (s.cfd == 0)
    r ← call (accept s.sfd) os.accept_returns
    elim r [
      | FdReturn.error eagain ↦ pure try_again
      | FdReturn.error e ↦ pure failed
      | FdReturn.fd cfd ↦ do
        nonblock ← call (set_nonblock cfd) os.nonblock_succeeds
        branch (not nonblock) (pure failed)
            (do modify (λ s. record s { cfd = cfd }); assert (not (cfd == 0)); pure connected)
    ]

unfoldable pub stop : M (Unit {0})
stop = do
  s ← get
  branch (s.sfd == 0) (pure tt)
      (do call (close s.sfd) (λ _. tt); modify (λ s. record s { sfd = 0 }))

unfoldable pub tcp_server_client_close : M (Unit {0})
tcp_server_client_close = do
  s ← get
  branch (s.cfd == 0) (pure tt)
      (do call (close s.cfd) (λ _. tt); modify (λ s. record s { cfd = 0 }))
