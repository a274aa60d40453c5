-- ===== src/Jtag/Session.antt =====
-- A run of ticks over a whole input: the probe carries out the commands in order.
use caliptra_ss.Base.{
  ℕ, suc, ◌+◌, ◌≤◌, ◌<◌, ◌≡◌, refl, sym, ◌∙◌, ap, List, [], ◌∷◌, ◌++◌, arith, append_assoc,
  append-nil, length, length-append, All, map,
}
use caliptra_ss.Tcp.Buffer.{TcpBuf}
use caliptra_ss.Tcp.Buffer.Inv.{IsValid, used}
use caliptra_ss.Tcp.Buffer.Refine.{contents, length-contents}
use caliptra_ss.Jtag.{JtagCtx, TickResult, updated, exited, waiting, jtagdpi_tick}
use caliptra_ss.Jtag.Protocol.{
  Command, IsCommand, encode, Pins, drive, response, write_pins, read_tdo,
}
use caliptra_ss.Jtag.Dispatch.{Later, Later-refl, Later-trans, pins, client_after}
use caliptra_ss.Jtag.Refine.{Ticks, jtagdpi_tick-Ticks}

-- A command, and the level of tdo at the tick that takes it.
pub record Round : Type 0 where
  pub command : Command
  pub tdo : ℕ

abbrev pub IsRound : Round → Type 0
IsRound r = IsCommand r.command × (r.tdo < 2)

abbrev pub input : List Round → List ℕ
input = map (λ r. encode r.command)

abbrev pub levels : List Round → List ℕ
levels = map (λ r. r.tdo)

-- The pins that a list of commands leaves, and the responses that it draws.
abbrev pub drive_all : List Round → Pins → Pins
drive_all [] p = p
drive_all (r ∷ rs) p = drive_all rs (drive r.command p)

abbrev pub responses : List Round → List ℕ
responses [] = []
responses (r ∷ rs) = response r.command r.tdo ++ responses rs

-- The client's descriptor after a list of commands.
abbrev pub client_after_all : List Round → ℕ → ℕ
client_after_all [] cfd = cfd
client_after_all (r ∷ rs) cfd = client_after_all rs (client_after r.command cfd)

-- The simulation ticks the probe once for each level of tdo.
unfoldable pub ticks : (TcpBuf → TcpBuf) → ℕ → JtagCtx → List ℕ → TickResult
ticks other polls ctx [] = updated ctx
ticks other polls ctx (tdo ∷ tdos) = elim (jtagdpi_tick other polls ctx tdo) [
  | updated ctx' ↦ ticks other polls ctx' tdos
  | exited ↦ exited
  | waiting ↦ waiting
]

pub length-response : (c : Command) (tdo : ℕ) → length (response c tdo) ≤ 1
length-response (write_pins tck tms tdi) tdo = omega arith
length-response read_tdo tdo = omega arith
length-response _ tdo = omega arith

module _ (other : TcpBuf → TcpBuf) (polls : ℕ) where
  used-after :
      {c : Command} {q : List ℕ} {tdo : ℕ} {ctx ctx' : JtagCtx}
      → Ticks c q tdo ctx ctx'
      → used ctx'.sock.buf_out ≤ used ctx.sock.buf_out + 1
  used-after {c} {q} {tdo} {ctx} {ctx'} t = omega (
    arith,
    length-contents ctx.sock.buf_out,
    length-contents ctx'.sock.buf_out,
    ap length t.replies,
    length-append (contents ctx.sock.buf_out) (response c tdo),
    length-response c tdo,
  )

  -- As many ticks as the input holds commands carry all of them out in order: the pins are those
  -- that the commands leave one after another, the responses are appended in order, the input is used
  -- up, and the connection is as the commands leave it; nothing is sent meanwhile. It needs room for a response to each command.
  pub ticks_lem :
      (rs : List Round) (ctx : JtagCtx)
      → All IsRound rs
      → IsValid ctx.sock.buf_in
      → contents ctx.sock.buf_in ≡ input rs
      → IsValid ctx.sock.buf_out
      → used ctx.sock.buf_out + length rs ≤ 1023
      → (ctx' : JtagCtx) × (ticks other (suc polls) ctx (levels rs) ≡ updated ctx')
        × (pins ctx' ≡ drive_all rs (pins ctx))
        × (contents ctx'.sock.buf_out ≡ contents ctx.sock.buf_out ++ responses rs)
        × IsValid ctx'.sock.buf_out
        × (contents ctx'.sock.buf_in ≡ [])
        × IsValid ctx'.sock.buf_in
        × (ctx'.sock.cfd ≡ client_after_all rs ctx.sock.cfd)
        × Later ctx.sock ctx'.sock
  unfolding ticks
  ticks_lem [] ctx h vin e vout room =
      (ctx, refl, refl, sym (append-nil _), vout, e, vin, refl, Later-refl ctx.sock)
  ticks_lem (r ∷ rs) ctx (h, hs) vin e vout room =
      let (ctx₁, runs, t) =
        jtagdpi_tick-Ticks other polls r.command (input rs) r.tdo ctx h.0 h.1 vin e vout
          (omega arith) in
      let (ctx', rest, p, o, w, i, u, c, l) =
        ticks_lem rs ctx₁ hs t.in_valid t.rest t.out_valid (omega (arith, used-after t)) in
      (
        ctx',
        ground (arith, runs, rest),
        p ∙ ap (drive_all rs) t.drives,
        o
            ∙ ap (λ (l : List ℕ). l ++ responses rs) t.replies
            ∙ append_assoc (contents ctx.sock.buf_out) (response r.command r.tdo) (responses rs),
        w,
        i,
        u,
        c ∙ ap (client_after_all rs) t.client,
        Later-trans t.later l,
      )
