-- ===== src/Jtag/Dispatch.antt =====
-- `dispatch`, the switch of update_jtag_signals, against the remote_bitbang protocol.
use caliptra_ss.Base.{
  ℕ, suc, ◌+◌, ◌-◌, ◌<◌, ◌≤◌, length, ◌≡◌, refl, ap, sym, ◌∙◌, some, [], ◌∷◌, ◌++◌, arith,
  Bool-cases, inl, inr, ◌%◌, ◌^◌, append-nil, ◌==◌,
}
use caliptra_ss.Tcp.Buffer.{TcpBuf, store_byte}
use caliptra_ss.Tcp.Buffer.Inv.{IsValid, used, store_byte-IsValid}
use caliptra_ss.Tcp.Buffer.Refine.{contents, contents-store_byte}
use caliptra_ss.Tcp.Buffer.Spin.{put_byte-room, room-not_full}
use caliptra_ss.Tcp.Os.{close}
use caliptra_ss.Tcp.Server.Monad.{Server, done}
use caliptra_ss.Tcp.Server.Flow.{sent}
use caliptra_ss.Tcp.Server.Setup.{tcp_server_client_close}
use caliptra_ss.Tcp.Server.Thread.{tcp_server_write}
use caliptra_ss.Jtag.{JtagCtx, updated, dispatch}
use caliptra_ss.Jtag.Protocol.{
  Command, write_pins, reset_pins, read_tdo, blink_on, blink_off, quit, IsCommand, encode, Pins,
  drive, response,
}

abbrev pub pins : JtagCtx → Pins
pins ctx = record {
  tck = ctx.curr.tck;
  tms = ctx.curr.tms;
  tdi = ctx.curr.tdi;
  trst_n = ctx.curr.trst_n;
  srst_n = ctx.curr.srst_n;
}

-- The client's descriptor after a command.
abbrev pub client_after : Command → ℕ → ℕ
client_after quit cfd = 0
client_after _ cfd = cfd

-- `s'` has the listening socket of `s`, and has made further calls, none of them a send.
pub record Later (s s' : Server) : Type 0 where
  pub same_sfd : s'.sfd ≡ s.sfd
  pub unsent : (fd : ℕ) → sent fd s'.log ≡ sent fd s.log
  pub longer : length s.log ≤ length s'.log

pub Later-refl : (s : Server) → Later s s
Later-refl s = record { same_sfd = refl; unsent = λ fd. refl; longer = omega arith }

pub Later-trans : {s s₁ s' : Server} → Later s s₁ → Later s₁ s' → Later s s'
Later-trans a b = record {
  same_sfd = b.same_sfd ∙ a.same_sfd;
  unsent = λ fd. b.unsent fd ∙ a.unsent fd;
  longer = omega (arith, a.longer, b.longer);
}

-- `ctx'` is what the protocol asks of a probe that carries out `c` in `ctx`.
pub record CarriesOut (c : Command) (ctx ctx' : JtagCtx) : Type 0 where
  pub drives : pins ctx' ≡ drive c (pins ctx)
  pub keeps_tdo : ctx'.curr.tdo ≡ ctx.curr.tdo
  pub replies : contents ctx'.sock.buf_out ≡ contents ctx.sock.buf_out ++ response c ctx.curr.tdo
  pub out_valid : IsValid ctx'.sock.buf_out
  pub in_kept : ctx'.sock.buf_in ≡ ctx.sock.buf_in
  pub client : ctx'.sock.cfd ≡ client_after c ctx.sock.cfd
  pub later : Later ctx.sock ctx'.sock

pub tcp_server_write-room :
    (other : TcpBuf → TcpBuf) (polls : ℕ) (s : Server) (x : ℕ)
    → IsValid s.buf_out
    → used s.buf_out < 1023
    → tcp_server_write other (suc polls) s x ≡ some (record s { buf_out = store_byte s.buf_out x })
unfolding tcp_server_write
tcp_server_write-room other polls s x v room =
    ground (arith, put_byte-room other polls s.buf_out x (room-not_full s.buf_out v room))

-- After `tcp_server_client_close` there is no client.
pub client_close_lem :
    (s : Server)
    → (s' : Server) × (tcp_server_client_close s ≡ done tt s')
      × (s'.cfd ≡ 0)
      × (s'.buf_in ≡ s.buf_in)
      × (s'.buf_out ≡ s.buf_out)
      × Later s s'
unfolding tcp_server_client_close
client_close_lem s = elim (Bool-cases (s.cfd == 0)) [
  | inl none_there ↦ (s, ground arith, ground arith, refl, refl, Later-refl s)
  | inr there ↦ (
    record s { cfd = 0; log = close s.cfd ∷ s.log },
    ground arith,
    refl,
    refl,
    refl,
    record { same_sfd = refl; unsent = λ fd. refl; longer = omega arith },
  )
]

-- A command that drives no pin and sends nothing leaves the context as it is.
silent :
    (c : Command) (ctx : JtagCtx)
    → IsValid ctx.sock.buf_out
    → drive c (pins ctx) ≡ pins ctx
    → response c ctx.curr.tdo ≡ []
    → client_after c ctx.sock.cfd ≡ ctx.sock.cfd
    → CarriesOut c ctx ctx
silent c ctx v d r k = record {
  drives = sym d;
  keeps_tdo = refl;
  replies = rw r (sym (append-nil _));
  out_valid = v;
  in_kept = refl;
  client = sym k;
  later = Later-refl ctx.sock;
}

module _ (other : TcpBuf → TcpBuf) (polls : ℕ) where
  pub dispatch-CarriesOut :
      (c : Command) (ctx : JtagCtx)
      → IsCommand c
      → IsValid ctx.sock.buf_out
      → used ctx.sock.buf_out < 1023
      → ctx.curr.tdo < 2
      → (ctx' : JtagCtx) × (dispatch other (suc polls) ctx (encode c) ≡ updated ctx')
        × CarriesOut c ctx ctx'
  unfolding dispatch
  dispatch-CarriesOut (write_pins tck tms tdi) ctx h v room t = (
    record ctx { curr = record (ctx.curr) { tck = tck; tms = tms; tdi = tdi } },
    ground arith,
    record {
      drives = refl;
      keeps_tdo = refl;
      replies = sym (append-nil _);
      out_valid = v;
      in_kept = refl;
      client = refl;
      later = Later-refl ctx.sock;
    },
  )
  dispatch-CarriesOut (reset_pins trst srst) ctx h v room t = (
    record ctx { curr = record (ctx.curr) { trst_n = 1 - trst; srst_n = 1 - srst } },
    ground arith,
    record {
      drives = refl;
      keeps_tdo = refl;
      replies = sym (append-nil _);
      out_valid = v;
      in_kept = refl;
      client = refl;
      later = Later-refl ctx.sock;
    },
  )
  dispatch-CarriesOut read_tdo ctx h v room t =
      let reply : ℕ = (ctx.curr.tdo + b'0') % 2 ^ 8 in
      let ascii : reply ≡ b'0' + ctx.curr.tdo = omega arith in
      (
        record ctx { sock = record (ctx.sock) { buf_out = store_byte ctx.sock.buf_out reply } },
        ground (arith, tcp_server_write-room other polls ctx.sock reply v room),
        record {
          drives = refl;
          keeps_tdo = refl;
          replies =
              contents-store_byte reply v room
              ∙ ap (λ (y : ℕ). contents ctx.sock.buf_out ++ y ∷ []) ascii;
          out_valid = store_byte-IsValid reply v;
          in_kept = refl;
          client = refl;
          later = record { same_sfd = refl; unsent = λ fd. refl; longer = omega arith };
        },
      )
  dispatch-CarriesOut blink_on ctx h v room t = (ctx, refl, silent blink_on ctx v refl refl refl)
  dispatch-CarriesOut blink_off ctx h v room t = (ctx, refl, silent blink_off ctx v refl refl refl)
  dispatch-CarriesOut quit ctx h v room t =
      let (sock, closes, gone, same_in, same_out, later) = client_close_lem ctx.sock in
      (
        record ctx { sock = sock },
        ground (arith, closes),
        record {
          drives = refl;
          keeps_tdo = refl;
          replies = rw (same_out, append-nil);
          out_valid = rw same_out v;
          in_kept = same_in;
          client = gone;
          later = later;
        },
      )
