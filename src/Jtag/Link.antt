-- ===== src/Jtag/Link.antt =====
-- A client's commands on their whole way: from the socket into the input buffer, through the probe, and
-- the responses from the output buffer back to the socket.
use caliptra_ss.Base.{
  ℕ, suc, ◌≤◌, ◌<◌, ◌≡◌, ◌≢◌, false, refl, sym, ◌∙◌, ap, ap₂, append-nil, subst, List, [], ◌∷◌,
  ◌++◌, arith, length, All, length-append,
}
use caliptra_ss.Tcp.Buffer.{TcpBuf}
use caliptra_ss.Tcp.Buffer.Inv.{IsValid, used}
use caliptra_ss.Tcp.Buffer.Refine.{contents, length-contents}
use caliptra_ss.Tcp.Os.{Os, Log, SendReturn}
use caliptra_ss.Tcp.Server.Monad.{Server, done}
use caliptra_ss.Tcp.Server.Thread.{serve}
use caliptra_ss.Tcp.Server.Flow.{sent}
use caliptra_ss.Tcp.Server.Pass.{Reports, serve_lem}
use caliptra_ss.Jtag.{JtagCtx, updated}
use caliptra_ss.Jtag.Protocol.{
  Command, write_pins, reset_pins, read_tdo, blink_on, blink_off, quit, response,
}
use caliptra_ss.Jtag.Dispatch.{pins, client_after}
use caliptra_ss.Jtag.Session.{
  Round, IsRound, input, levels, drive_all, responses, length-response, client_after_all, ticks,
  ticks_lem,
}

-- A round whose command does not end the connection.
abbrev pub IsOpen : Round → Type 0
IsOpen r = client_after r.command 1 ≡ 1

client_after-IsOpen : (c : Command) (cfd : ℕ) → client_after c 1 ≡ 1 → client_after c cfd ≡ cfd
client_after-IsOpen (write_pins tck tms tdi) cfd h = refl
client_after-IsOpen (reset_pins trst srst) cfd h = refl
client_after-IsOpen read_tdo cfd h = refl
client_after-IsOpen blink_on cfd h = refl
client_after-IsOpen blink_off cfd h = refl
client_after-IsOpen quit cfd h = absurd (omega arith)

client_stays : (rs : List Round) (cfd : ℕ) → All IsOpen rs → client_after_all rs cfd ≡ cfd
client_stays [] cfd h = refl
client_stays (r ∷ rs) cfd (h, hs) =
    ap (client_after_all rs) (client_after-IsOpen r.command cfd h) ∙ client_stays rs cfd hs

length-input : (rs : List Round) → length (input rs) ≡ length rs
length-input [] = refl
length-input (r ∷ rs) = ap suc (length-input rs)

length-responses : (rs : List Round) → length (responses rs) ≤ length rs
length-responses [] = omega arith
length-responses (r ∷ rs) = omega (
  arith,
  length-append (response r.command r.tdo) (responses rs),
  length-response r.command r.tdo,
  length-responses rs,
)

empty-used : (b : TcpBuf) → contents b ≡ [] → used b ≡ 0
empty-used b e = sym (length-contents b) ∙ ap length e

-- A session with a client that sends at most 1023 commands, none of them a quit, and then nothing: one pass of the
-- socket thread's loop takes the commands in; as many ticks of the probe as there are commands
-- carry them out in order, so that the pins are as the commands leave them; and another pass sends
-- the client the responses, all of them, in order and nothing else. Both buffers are empty before and after, and the connection stays. The polls must be more
-- than the commands. The simulation thread runs between the two passes and not during them, nobody else connects, and the
-- client takes what it is sent.
pub link_lem :
    (os : Os) (other : TcpBuf → TcpBuf) (polls : ℕ) (rs : List Round) (ctx : JtagCtx)
    → All IsRound rs
    → All IsOpen rs
    → length rs ≤ 1023
    → length rs ≤ polls
    → ctx.sock.cfd ≢ 0
    → IsValid ctx.sock.buf_in
    → contents ctx.sock.buf_in ≡ []
    → IsValid ctx.sock.buf_out
    → contents ctx.sock.buf_out ≡ []
    → ((l : Log) → (os.select_returns l).is_negative ≡ false)
    → ((l : Log) → (os.select_returns l).is_set ctx.sock.sfd ≡ false)
    → Reports os ctx.sock (input rs)
    → ((s : Server) → length ctx.sock.log < length s.log → Reports os s [])
    → ((l : Log) → os.host_runs l ≡ [])
    → ((l : Log) → os.send_returns l ≡ SendReturn.written 1)
    → (s₁ : Server) × (ctx₂ : JtagCtx) × (s₃ : Server) × (serve os (suc polls) ctx.sock
        ≡ done tt s₁)
      × (ticks other (suc polls) (record ctx { sock = s₁ }) (levels rs) ≡ updated ctx₂)
      × (serve os (suc polls) ctx₂.sock ≡ done tt s₃)
      × (pins ctx₂ ≡ drive_all rs (pins ctx))
      × (sent ctx.sock.cfd s₃.log ≡ sent ctx.sock.cfd ctx.sock.log ++ responses rs)
      × (contents s₃.buf_in ≡ [])
      × (contents s₃.buf_out ≡ [])
      × (s₃.cfd ≡ ctx.sock.cfd)
link_lem os other polls rs ctx rounds opened few enough client vin ein vout eout works alone
      commands silence quiet takes =
    let (s₁, pass₁, in₁, vin₁, out₁, vout₁, sent₁, cfd₁, sfd₁, longer₁) =
      serve_lem os polls ctx.sock (input rs) client (works ctx.sock.log) (alone ctx.sock.log)
        commands quiet takes vin (omega (arith, empty-used ctx.sock.buf_in ein, length-input rs))
        (omega (arith, length-input rs)) vout (omega (arith, ap length eout)) in
    let (ctx₂, ticked, drives, replies, vout₂, in₂, vin₂, cfd₂, later) =
      ticks_lem other polls rs (record ctx { sock = s₁ }) rounds vin₁
        (in₁ ∙ ap (λ (l : List ℕ). l ++ input rs) ein) vout₁
        (omega (arith, empty-used s₁.buf_out out₁)) in
    let stays : ctx₂.sock.cfd ≡ ctx.sock.cfd = cfd₂ ∙ client_stays rs s₁.cfd opened ∙ cfd₁ in
    let all : contents ctx₂.sock.buf_out ≡ responses rs =
      replies ∙ ap (λ (l : List ℕ). l ++ responses rs) out₁ in
    let unsent : sent ctx.sock.cfd ctx₂.sock.log ≡ sent ctx.sock.cfd ctx.sock.log =
      later.unsent ctx.sock.cfd
      ∙ sent₁
      ∙ ap (λ (l : List ℕ). sent ctx.sock.cfd ctx.sock.log ++ l) eout
      ∙ append-nil (sent ctx.sock.cfd ctx.sock.log) in
    let (s₃, pass₂, in₃, vin₃, out₃, vout₃, sent₃, cfd₃, sfd₃, longer₃) =
      serve_lem os polls ctx₂.sock [] (λ e. client (sym stays ∙ e)) (works ctx₂.sock.log)
        (ap (os.select_returns ctx₂.sock.log).is_set (later.same_sfd ∙ sfd₁) ∙ alone ctx₂.sock.log)
        (silence ctx₂.sock (omega (arith, longer₁, later.longer))) quiet takes vin₂
        (omega (arith, empty-used ctx₂.sock.buf_in in₂)) (omega arith) vout₂
        (omega (arith, ap length all, length-responses rs)) in
    (
      s₁,
      ctx₂,
      s₃,
      pass₁,
      ticked,
      pass₂,
      drives,
      subst (λ (fd : ℕ). sent fd s₃.log ≡ sent fd ctx₂.sock.log ++ contents ctx₂.sock.buf_out) stays
            sent₃
          ∙ ap₂ (λ (l m : List ℕ). l ++ m) unsent all,
      in₃ ∙ ap (λ (l : List ℕ). l ++ []) in₂,
      out₃,
      cfd₃ ∙ stays,
    )
