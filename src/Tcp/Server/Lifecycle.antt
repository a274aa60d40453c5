-- ===== src/Tcp/Server/Lifecycle.antt =====
-- Which descriptors the server holds, and which it closes.
use caliptra_ss.Base.{
  ℕ, suc, ◌<◌, ◌≡◌, ◌≢◌, refl, true, false, [], ◌∷◌, arith, ◌==◌, if◌then◌else◌, inl, inr, ◌⊎◌,
}
use caliptra_ss.Tcp.Os.{
  Os, Errno, Log, FdReturn, socket, set_nonblock, set_reuseaddr, set_nodelay, bind, listen, close,
}
use caliptra_ss.Tcp.Server.Monad.{Server, done, aborted, M, pure, >>=-eq-done, ◌>>◌}
use caliptra_ss.Tcp.Server.Setup.{
  Status, success, failure, listen_on, start, client_tryaccept, stop, tcp_server_client_close,
}
use caliptra_ss.Tcp.Server.Thread.{serve, serve_loop, server_create}

-- How often a descriptor was closed.
abbrev pub closes : ℕ → Log → ℕ
closes d [] = 0
closes d (close e ∷ log) = if d == e then suc (closes d log) else closes d log
closes d (_ ∷ log) = closes d log

pub FdReturn-cases :
    (r : FdReturn) → ((e : Errno) × (r ≡ FdReturn.error e)) ⊎ ((fd : ℕ) × (r ≡ FdReturn.fd fd))
FdReturn-cases (FdReturn.error e) = inl (e, refl)
FdReturn-cases (FdReturn.fd fd) = inr (fd, refl)

listen_on-success :
    (os : Os) (port fd : ℕ) (s s' : Server)
    → listen_on os port fd s ≡ done success s'
    → (0 < fd)
      × (s' ≡ record s {
        sfd = fd;
        log =
            listen fd 1
            ∷ bind fd port
            ∷ set_nodelay fd
            ∷ set_reuseaddr fd
            ∷ set_nonblock fd
            ∷ s.log;
      })
unfolding listen_on
listen_on-success os port fd s s' e = ground arith

listen_on-failure :
    (os : Os) (port fd : ℕ) (s s' : Server)
    → listen_on os port fd s ≡ done failure s'
    → (s' ≡ record s { log = s'.log }) × ((d : ℕ) → closes d s'.log ≡ closes d s.log)
unfolding listen_on
listen_on-failure os port fd s s' e = (ground arith, λ d. ground arith)

-- A start that succeeds has made the six calls in this order, each on the socket that the first
-- one returned, and the server holds that socket.
pub start_success :
    (os : Os) (s s' : Server)
    → start os s ≡ done success s'
    → (fd : ℕ) × (os.socket_returns s.log ≡ FdReturn.fd fd)
      × (0 < fd)
      × (s' ≡ record s {
        sfd = fd;
        log =
            listen fd 1
            ∷ bind fd s.listen_port
            ∷ set_nodelay fd
            ∷ set_reuseaddr fd
            ∷ set_nonblock fd
            ∷ socket
            ∷ s.log;
      })
unfolding start
start_success os s s' e = elim (FdReturn-cases (os.socket_returns s.log)) [
  | inl (_, r) ↦ ground arith
  | inr (fd, r) ↦
      let held : Server = record s { log = socket ∷ s.log } in
      let (pos, after) = listen_on-success os s.listen_port fd held s' (ground arith) in
      (fd, r, pos, after)
]

-- A start that fails leaves the server without a socket, and has closed no descriptor: the one that
-- `socket` returned, where it returned one, stays open.
pub start_failure :
    (os : Os) (s s' : Server)
    → start os s ≡ done failure s'
    → (s' ≡ record s { log = s'.log }) × (s'.sfd ≡ 0) × ((d : ℕ) → closes d s'.log ≡ closes d s.log)
unfolding start
start_failure os s s' e = elim (FdReturn-cases (os.socket_returns s.log)) [
  | inl (_, r) ↦ (ground arith, ground arith, λ d. ground arith)
  | inr (fd, r) ↦
      let held : Server = record s { log = socket ∷ s.log } in
      let (same, kept) = listen_on-failure os s.listen_port fd held s' (ground arith) in
      (same, ground arith, kept)
]

-- Closing a client and stopping end, and leave neither descriptor.
cleanup_lem :
    (s s' : Server) → (tcp_server_client_close >> stop) s ≡ done tt s' → (s'.sfd ≡ 0) × (s'.cfd ≡ 0)
unfolding tcp_server_client_close stop
cleanup_lem s s' e = ground arith

-- `server_create` returns only after it has let go of both descriptors.
pub server_create-closed :
    (os : Os) (polls rounds : ℕ) (s s' : Server)
    → server_create os polls rounds s ≡ done tt s'
    → (s'.sfd ≡ 0) × (s'.cfd ≡ 0)
unfolding server_create
server_create-closed os polls rounds s s' e =
    let work : Status → M (Unit {0}) = elim [
      | success ↦ serve_loop os polls rounds
      | failure ↦ pure tt
    ] in
    let (r, s₁, started, e₁) =
      >>=-eq-done (start os) (λ r. work r >> (tcp_server_client_close >> stop)) {s = s} e in
    let (_, s₂, ran, e₂) =
      >>=-eq-done (work r) (λ _. tcp_server_client_close >> stop) {s = s₁} e₁ in
    cleanup_lem s₂ s' e₂

-- A second connection, while there is a client, fails an assertion: the whole simulation ends.
pub second_client :
    (os : Os) (polls : ℕ) (s : Server)
    → s.sfd ≢ 0
    → s.cfd ≢ 0
    → (os.select_returns s.log).is_negative ≡ false
    → (os.select_returns s.log).is_set s.sfd ≡ true
    → serve os polls s ≡ aborted
unfolding serve client_tryaccept
second_client os polls s hs hc n r = ground arith
