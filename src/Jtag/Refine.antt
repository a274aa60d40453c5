-- ===== src/Jtag/Refine.antt =====
-- A tick of the probe against the remote_bitbang protocol.
use caliptra_ss.Base.{ℕ, suc, ◌-◌, ◌<◌, ◌≡◌, ◌≢◌, ap, ◌∙◌, List, ◌∷◌, ◌++◌, arith, ◌%◌, ◌/◌}
use caliptra_ss.Tcp.Buffer.{TcpBuf, tcp_buffer_get_byte}
use caliptra_ss.Tcp.Buffer.Inv.{IsValid, used, tcp_buffer_get_byte-IsValid}
use caliptra_ss.Tcp.Buffer.Refine.{contents, get_byte-front}
use caliptra_ss.Tcp.Server.Thread.{tcp_server_read}
use caliptra_ss.Jtag.{JtagCtx, updated, exited, dispatch, update_jtag_signals, jtagdpi_tick}
use caliptra_ss.Jtag.Protocol.{
  Command, write_pins, reset_pins, read_tdo, blink_on, blink_off, quit, IsCommand, encode, drive,
  response,
}
use caliptra_ss.Jtag.Dispatch.{Later, pins, client_after, dispatch-CarriesOut}

-- What a tick does with one command of the protocol in front of the input.
pub record Ticks (c : Command) (q : List ℕ) (tdo : ℕ) (ctx ctx' : JtagCtx) : Type 0 where
  pub drives : pins ctx' ≡ drive c (pins ctx)
  pub samples : ctx'.curr.tdo ≡ tdo
  pub replies : contents ctx'.sock.buf_out ≡ contents ctx.sock.buf_out ++ response c tdo
  pub out_valid : IsValid ctx'.sock.buf_out
  pub rest : contents ctx'.sock.buf_in ≡ q
  pub in_valid : IsValid ctx'.sock.buf_in
  pub client : ctx'.sock.cfd ≡ client_after c ctx.sock.cfd
  pub later : Later ctx.sock ctx'.sock

-- A tick takes exactly the command in front of the input buffer: the pins, the response and the
-- connection after it are what the protocol says, tdo is the level that the tick was given, the
-- later input is untouched, both buffers stay valid, and nothing is sent. It needs room for a
-- response.
pub jtagdpi_tick-Ticks :
    (other : TcpBuf → TcpBuf) (polls : ℕ) (c : Command) (q : List ℕ) (tdo : ℕ) (ctx : JtagCtx)
    → IsCommand c
    → tdo < 2
    → IsValid ctx.sock.buf_in
    → contents ctx.sock.buf_in ≡ encode c ∷ q
    → IsValid ctx.sock.buf_out
    → used ctx.sock.buf_out < 1023
    → (ctx' : JtagCtx) × (jtagdpi_tick other (suc polls) ctx tdo ≡ updated ctx')
      × Ticks c q tdo ctx ctx'
unfolding jtagdpi_tick update_jtag_signals tcp_server_read
jtagdpi_tick-Ticks other polls c q tdo ctx h t vin front vout room =
    let (front_byte, behind) = get_byte-front (encode c) q vin front in
    let buf_in = (tcp_buffer_get_byte ctx.sock.buf_in).1 in
    let taken : JtagCtx = record {
      sock = record (ctx.sock) { buf_in = buf_in };
      curr = record (ctx.curr) { tdo = tdo };
    } in
    let (ctx', runs, does) = dispatch-CarriesOut other polls c taken h vout room t in
    (
      ctx',
      ground (arith, front_byte, runs),
      record {
        drives = does.drives;
        samples = does.keeps_tdo;
        replies = does.replies;
        out_valid = does.out_valid;
        rest = ap contents does.in_kept ∙ behind;
        in_valid = rw does.in_kept (tcp_buffer_get_byte-IsValid vin);
        client = does.client;
        later = record {
          same_sfd = does.later.same_sfd;
          unsent = does.later.unsent;
          longer = does.later.longer;
        };
      },
    )

-- A byte that encodes no command of the protocol.
abbrev pub IsForeign : ℕ → Type 0
IsForeign x = (c : Command) → IsCommand c → encode c ≢ x

foreign_dispatch :
    (other : TcpBuf → TcpBuf) (polls : ℕ) (ctx : JtagCtx) (x : ℕ)
    → IsForeign x
    → dispatch other polls ctx x ≡ exited
unfolding dispatch
foreign_dispatch other polls ctx x f = ground (
  arith,
  f (write_pins ((x - b'0') / 4) ((x - b'0') / 2 % 2) ((x - b'0') % 2)),
  f (reset_pins ((x - b'r') / 2) ((x - b'r') % 2)),
  f read_tdo,
  f blink_on,
  f blink_off,
  f quit,
)

-- Any byte in front of the input that encodes no command ends the simulation.
pub jtagdpi_tick-foreign :
    (other : TcpBuf → TcpBuf) (polls x : ℕ) (q : List ℕ) (tdo : ℕ) (ctx : JtagCtx)
    → IsForeign x
    → IsValid ctx.sock.buf_in
    → contents ctx.sock.buf_in ≡ x ∷ q
    → jtagdpi_tick other polls ctx tdo ≡ exited
unfolding jtagdpi_tick update_jtag_signals tcp_server_read
jtagdpi_tick-foreign other polls x q tdo ctx f v front =
    let buf_in = (tcp_buffer_get_byte ctx.sock.buf_in).1 in
    let taken : JtagCtx = record {
      sock = record (ctx.sock) { buf_in = buf_in };
      curr = record (ctx.curr) { tdo = tdo };
    } in
    ground (arith, (get_byte-front x q v front).0, foreign_dispatch other polls taken x f)
