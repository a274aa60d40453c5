-- ===== src/Tcp/Server/Ends.antt =====
-- The socket thread's function returns once the simulation has asked for its end, where nobody has
-- connected: a client could keep it busy for ever.
use caliptra_ss.Base.{
  sym, if◌then◌else◌, ltb, ℕ, zero, suc, ◌+◌, ◌≤◌, ◌<◌, ◌≡◌, ◌≢◌, ◌∷◌, length, arith, inl, inr, ap,
  ◌∙◌, refl, true, false, Bool-cases,
}
use caliptra_ss.Tcp.Os.{Os, Log, FdReturn, socket, yield, select, accept, eagain}
use caliptra_ss.Tcp.Server.Monad.{
  Server, Outcome, Outcome-cases, aborted, running, done, interleave, host_steps, ◌>>◌,
}
use caliptra_ss.Tcp.Server.Setup.{
  Status, success, failure, start, listen_on, stop, tcp_server_client_close, client_tryaccept,
}
use caliptra_ss.Tcp.Server.Thread.{serve, watched, serve_loop, server_create}
use caliptra_ss.Tcp.Server.Lifecycle.{FdReturn-cases, server_create-closed, start_success}
use caliptra_ss.Tcp.Server.Host.{asks_end, host_steps-kept, host_steps-asked}

-- What neither aborts nor is still running has returned.
returned :
    {A : Type 0} (r : Outcome A)
    → r ≢ aborted
    → r ≢ running
    → (a : A) × (s : Server) × (r ≡ done a s)
returned r h k = elim (Outcome-cases r) [
  | inl d ↦ d
  | inr (inl e) ↦ ground (arith, h e)
  | inr (inr e) ↦ ground (arith, k e)
]

listen_on_total :
    (os : Os) (port fd : ℕ) (s : Server)
    → fd ≢ 0
    → (r : Status) × (s' : Server) × (listen_on os port fd s ≡ done r s')
unfolding listen_on
listen_on_total os port fd s h =
    returned (listen_on os port fd s) (λ e. ground arith) (λ e. ground arith)

start_total :
    (os : Os) (s : Server)
    → s.sfd ≡ 0
    → ((log : Log) → os.socket_returns log ≢ FdReturn.fd 0)
    → (r : Status) × (s' : Server) × (start os s ≡ done r s')
unfolding start
start_total os s h nz = elim (FdReturn-cases (os.socket_returns s.log)) [
  | inl (_, r) ↦ (failure, record s { log = socket ∷ s.log }, ground arith)
  | inr (fd, r) ↦
      let (a, s', e) =
        listen_on_total os s.listen_port fd (record s { log = socket ∷ s.log })
          (λ z. nz s.log (r ∙ ap (λ (n : ℕ). FdReturn.fd n) z)) in
      (a, s', ground arith)
]

cleanup_total :
    (s : Server)
    → (u : Unit {0}) × (s' : Server) × ((tcp_server_client_close >> stop) s ≡ done u s')
unfolding tcp_server_client_close stop
cleanup_total s =
    returned ((tcp_server_client_close >> stop) s) (λ e. ground arith) (λ e. ground arith)

-- Nobody connects: `accept` has no connection to give, and `select`, which is not asked for descriptor 0
-- where there is no client, does not set it. No socket is descriptor 0. From the `n`-th call on
-- the simulation asks for the end whenever it runs.
pub record IsDeserted (os : Os) (n : ℕ) : Type 0 where
  pub no_fd_0 : (log : Log) → os.socket_returns log ≢ FdReturn.fd 0
  pub no_connection : (log : Log) → os.accept_returns log ≡ FdReturn.error eagain
  pub no_client : (log : Log) → (os.select_returns log).is_set 0 ≡ false
  pub ends : (log : Log) → n ≤ length log → asks_end (os.host_runs log) ≡ true

module _ (os : Os) {n : ℕ} (polls : ℕ) (deserted : IsDeserted os n) where
  -- One pass of the loop finds no client, and makes a call at least.
  serve_deserted :
      (s : Server)
      → s.sfd ≢ 0
      → s.cfd ≡ 0
      → (s' : Server) × (serve os polls s ≡ done tt s')
        × (s'.sfd ≡ s.sfd)
        × (s'.cfd ≡ 0)
        × (length s.log < length s'.log)
  unfolding serve client_tryaccept tcp_server_client_close
  serve_deserted s listens none_yet =
      let asked : Log =
        select ((if ltb s.sfd s.cfd then s.cfd else s.sfd) + 1) (watched s) ∷ s.log in
      let quiet : (os.select_returns s.log).is_set s.cfd ≡ false =
        ap (λ (d : ℕ). (os.select_returns s.log).is_set d) none_yet ∙ deserted.no_client s.log in
      let refused = deserted.no_connection asked in
      elim (Bool-cases ((os.select_returns s.log).is_set s.sfd)) [
        | inl tries ↦ (
          record s { log = accept s.sfd ∷ asked },
          ground (arith, listens, none_yet, quiet, tries, refused),
          refl,
          none_yet,
          omega arith,
        )
        | inr idle ↦ (
          record s { log = asked },
          ground (arith, none_yet, quiet, idle),
          refl,
          none_yet,
          omega arith,
        )
      ]

  -- As many rounds as calls are missing until the end is asked for, and one more, are enough.
  serve_loop_deserted :
      (rounds : ℕ) (s : Server)
      → s.sfd ≢ 0
      → s.cfd ≡ 0
      → n ≤ rounds + length s.log
      → (s' : Server) × (serve_loop os polls (suc rounds) s ≡ done tt s')
  unfolding serve_loop interleave
  serve_loop_deserted zero s listens none_yet enough =
      let woken : Server = record s { log = yield ∷ s.log } in
      let stopped =
        host_steps-asked (os.host_runs s.log) woken (deserted.ends s.log (omega arith)) in
      (host_steps (os.host_runs s.log) woken, ground (arith, stopped))
  serve_loop_deserted (suc rounds) s listens none_yet enough =
      let woken : Server = record s { log = yield ∷ s.log } in
      let s₁ : Server = host_steps (os.host_runs s.log) woken in
      let (c, f, l) = host_steps-kept (os.host_runs s.log) woken in
      let (s₂, served, f', c', more) =
        serve_deserted s₁ (λ z. listens (sym f ∙ z)) (c ∙ none_yet) in
      let longer : suc (length s.log) ≡ length s₁.log = ap length (sym l) in
      let (s', rest) =
        serve_loop_deserted rounds s₂ (λ z. listens (sym f ∙ (sym f' ∙ z))) c' (omega arith) in
      elim (Bool-cases s₁.socket_run) [
        | inl goes_on ↦ (s', ground (arith, goes_on, served, rest))
        | inr stopped ↦ (s₁, ground (arith, stopped))
      ]

  after_start :
      (s : Server) (r : Status) (s₁ : Server)
      → s.cfd ≡ 0
      → start os s ≡ done r s₁
      → (s' : Server) × (server_create os polls (suc n) s ≡ done tt s')
  unfolding server_create
  after_start s success s₁ none_yet e₁ =
      let (fd, _, pos, same) = start_success os s s₁ e₁ in
      let (s₂, e₂) =
        serve_loop_deserted n s₁ (λ z. ground arith) (ap (λ (x : Server). x.cfd) same ∙ none_yet)
          (omega arith) in
      let (_, s₃, e₃) = cleanup_total s₂ in (s₃, ground (arith, e₁, e₂, e₃))
  after_start s failure s₁ none_yet e₁ =
      let (_, s₃, e₃) = cleanup_total s₁ in (s₃, ground (arith, e₁, e₃))

-- Where nobody connects, no socket is descriptor 0, and the simulation asks for the end whenever it runs from
-- the `n`-th call on, `server_create` returns within `n + 1` rounds of its loop, whether the start
-- succeeds or fails and whatever else the simulation does, and has let go of both descriptors.
pub server_create-ends :
    (os : Os) (n polls : ℕ) (s : Server)
    → IsDeserted os n
    → s.sfd ≡ 0
    → s.cfd ≡ 0
    → (s' : Server) × (server_create os polls (suc n) s ≡ done tt s') × (s'.sfd ≡ 0) × (s'.cfd ≡ 0)
server_create-ends os n polls s deserted no_socket none_yet =
    let (r, s₁, e₁) = start_total os s no_socket deserted.no_fd_0 in
    let (s', e) = after_start os polls deserted s r s₁ none_yet e₁ in
    let (f, c) = server_create-closed os polls (suc n) s s' e in (s', e, f, c)
