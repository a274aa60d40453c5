-- ===== src/Tcp/Server/Pass.antt =====
-- One pass of the loop of `server_create`, with a client and no new connection.
use caliptra_ss.Base.{
  ℕ, suc, ◌+◌, ◌≤◌, ◌<◌, ◌≡◌, ◌≢◌, ◌⊎◌, inl, inr, refl, ◌∙◌, sym, ap, subst, true, false, Bool,
  List, [], ◌∷◌, ◌++◌, arith, length, append-nil, ◌==◌, not, if◌then◌else◌, ltb,
}
use caliptra_ss.Tcp.Buffer.Inv.{IsValid, used}
use caliptra_ss.Tcp.Buffer.Refine.{contents}
use caliptra_ss.Tcp.Os.{Os, Log, select, SendReturn}
use caliptra_ss.Tcp.Server.Monad.{Server, Outcome, done, pure, branch, M, ◌>>=◌, ◌>>◌, get}
use caliptra_ss.Tcp.Server.Setup.{client_tryaccept, tcp_server_client_close}
use caliptra_ss.Tcp.Server.Transfer.{receive, transmit}
use caliptra_ss.Tcp.Server.Thread.{serve, watched}
use caliptra_ss.Tcp.Server.Flow.{Delivers, Accepts-all, sent, receive_lem, transmit_lem}

-- The server once `select` has returned.
abbrev pub selected : Server → Server
selected s = record s {
  log = select ((if ltb s.sfd s.cfd then s.cfd else s.sfd) + 1) (watched s) ∷ s.log;
}

-- `select` reports the client or not, and what the client's socket then gives is `xs`.
abbrev pub Reports : Os → Server → List ℕ → Type 0
Reports os s xs =
    (((os.select_returns s.log).is_set s.cfd ≡ true) × Delivers os s.cfd (selected s).log xs)
    ⊎ (((os.select_returns s.log).is_set s.cfd ≡ false) × (xs ≡ []))

module _ (os : Os) (polls : ℕ) (s : Server) where
  abbrev reading : M (Unit {0})
  reading = branch ((os.select_returns s.log).is_set s.cfd) (receive os polls polls) (pure tt)

  abbrev writing : M (Unit {0})
  writing = do s ← get; branch (not (s.cfd == 0)) (transmit os polls polls) (pure tt)

  abbrev accepting : M (Unit {0})
  accepting = do
    s' ← get
    branch ((os.select_returns s.log).is_set s'.sfd) (client_tryaccept os >>= λ _. pure tt)
        (pure tt)

  abbrev reading_writing : M (Unit {0})
  reading_writing = do
    s' ← get
    branch ((os.select_returns s.log).is_set s'.cfd) (receive os polls polls) (pure tt)
    writing

  serve_parts :
      (s₁ s₂ : Server)
      → (os.select_returns s.log).is_negative ≡ false
      → (os.select_returns s.log).is_set s.sfd ≡ false
      → reading (selected s) ≡ done tt s₁
      → s₁.cfd ≡ s.cfd
      → s.cfd ≢ 0
      → transmit os polls polls s₁ ≡ done tt s₂
      → serve os polls s ≡ done tt s₂
  unfolding serve
  serve_parts s₁ s₂ works alone reads same client sends =
      let some_client : not (s₁.cfd == 0) ≡ true = ground (arith, client, same) in
      ap
        (λ (b : Bool).
          (branch b tcp_server_client_close (pure tt) >> (accepting >> reading_writing))
            (selected s))
        works
      ∙ ap
          (λ (b : Bool).
            (branch b (client_tryaccept os >>= λ _. pure tt) (pure tt) >> reading_writing)
              (selected s))
          alone
      ∙ ap (λ (r : Outcome (Unit {0})). ((λ _. r) >> writing) s) reads
      ∙ ap (λ (b : Bool). branch b (transmit os polls polls) (pure tt) s₁) some_client
      ∙ sends

reading_lem :
    (os : Os) (polls : ℕ) (s : Server) (xs : List ℕ)
    → Reports os s xs
    → IsValid s.buf_in
    → used s.buf_in + length xs ≤ 1023
    → length xs ≤ polls
    → (s₁ : Server) × (reading os (suc polls) s (selected s) ≡ done tt s₁)
      × (contents s₁.buf_in ≡ contents s.buf_in ++ xs)
      × IsValid s₁.buf_in
      × (sent s.cfd s₁.log ≡ sent s.cfd s.log)
      × (length s.log < length s₁.log)
      × (s₁ ≡ record s { buf_in = s₁.buf_in; log = s₁.log })
reading_lem os polls s xs (inl (reported, delivers)) v room enough =
    let (s₁, runs, got, valid, unsent, longer, same) =
      receive_lem os polls xs (suc polls) (selected s) (omega arith) delivers v room in
    (
      s₁,
      ap (λ (b : Bool). branch b (receive os (suc polls) (suc polls)) (pure tt) (selected s))
            reported
          ∙ runs,
      got,
      valid,
      unsent,
      omega (arith, longer),
      same,
    )
reading_lem os polls s xs (inr (silent, none)) v room enough = (
  selected s,
  ap (λ (b : Bool). branch b (receive os (suc polls) (suc polls)) (pure tt) (selected s)) silent,
  sym (append-nil (contents s.buf_in)) ∙ ap (λ (l : List ℕ). contents s.buf_in ++ l) (sym none),
  v,
  refl,
  omega arith,
  refl,
)

-- One pass of the loop, with a client, no new connection, a simulation thread that does nothing
-- meanwhile and a client that takes what it is sent: all that the client's socket gives is appended
-- to the input buffer, in order, if there is room for it; all that waits in the output buffer is
-- sent, in order, and nothing else; both buffers stay valid and both descriptors stay. The polls
-- must be more than the bytes in either direction.
pub serve_lem :
    (os : Os) (polls : ℕ) (s : Server) (xs : List ℕ)
    → s.cfd ≢ 0
    → (os.select_returns s.log).is_negative ≡ false
    → (os.select_returns s.log).is_set s.sfd ≡ false
    → Reports os s xs
    → ((l : Log) → os.host_runs l ≡ [])
    → ((l : Log) → os.send_returns l ≡ SendReturn.written 1)
    → IsValid s.buf_in
    → used s.buf_in + length xs ≤ 1023
    → length xs ≤ polls
    → IsValid s.buf_out
    → length (contents s.buf_out) ≤ polls
    → (s' : Server) × (serve os (suc polls) s ≡ done tt s')
      × (contents s'.buf_in ≡ contents s.buf_in ++ xs)
      × IsValid s'.buf_in
      × (contents s'.buf_out ≡ [])
      × IsValid s'.buf_out
      × (sent s.cfd s'.log ≡ sent s.cfd s.log ++ contents s.buf_out)
      × (s'.cfd ≡ s.cfd)
      × (s'.sfd ≡ s.sfd)
      × (length s.log < length s'.log)
serve_lem os polls s xs client works alone reports quiet takes vin room enough vout few =
    let (s₁, reads, got, valid₁, unsent, longer₁, same) =
      reading_lem os polls s xs reports vin room enough in
    let out₁ : s₁.buf_out ≡ s.buf_out = ap (λ (s : Server). s.buf_out) same in
    let cfd₁ : s₁.cfd ≡ s.cfd = ap (λ (s : Server). s.cfd) same in
    let ys : List ℕ = contents s.buf_out in
    let (s₂, sends, empty, valid, out, longer₂, same₂) =
      transmit_lem os polls ys (suc polls) s₁ (omega arith)
        (Accepts-all os s₁.cfd ys s₁.log quiet takes) (rw out₁ vout) (ap contents out₁) in
    (
      s₂,
      serve_parts os (suc polls) s s₁ s₂ works alone reads cfd₁ client sends,
      ap (λ (s : Server). contents s.buf_in) same₂ ∙ got,
      rw (ap (λ (s : Server). s.buf_in) same₂) valid₁,
      empty,
      valid,
      subst (λ (fd : ℕ). sent fd s₂.log ≡ sent fd s₁.log ++ ys) cfd₁ out
          ∙ ap (λ (l : List ℕ). l ++ ys) unsent,
      ap (λ (s : Server). s.cfd) same₂ ∙ cfd₁,
      ap (λ (s : Server). s.sfd) same₂ ∙ ap (λ (s : Server). s.sfd) same,
      omega (arith, longer₁, longer₂),
    )
