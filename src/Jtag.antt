-- ===== src/Jtag.antt =====
-- src/mcu/test_suites/libs/jtagdpi/jtagdpi.c: a virtual JTAG probe. At each tick it takes at most one
-- command of OpenOCD's remote_bitbang protocol from the socket and drives the pins. The messages
-- on the terminal are left out, and so is the code under JTAGDPI_DEBUG.
pub mod Protocol
pub mod Dispatch
pub mod Refine
pub mod Session
pub mod Link
pub mod Debug
pub mod Tests
pub mod LinkTests
use caliptra_ss.Base.{
  ℕ, ◌+◌, ◌-◌, ◌/◌, ◌%◌, ◌^◌, Bool, true, false, ◌&&◌, Option, none, some, List, ◌==◌, leb,
  if◌then◌else◌,
}
use caliptra_ss.Tcp.Buffer.{TcpBuf}
use caliptra_ss.Tcp.Server.Monad.{Server, Outcome, done, aborted, running}
use caliptra_ss.Tcp.Server.Setup.{tcp_server_client_close}
use caliptra_ss.Tcp.Server.Thread.{tcp_server_create, tcp_server_read, tcp_server_write}

-- `struct jtagdpi_signals`
pub record Signals : Type 0 where
  pub tck : ℕ
  pub tms : ℕ
  pub tdi : ℕ
  pub tdo : ℕ
  pub trst_n : ℕ
  pub srst_n : ℕ

pub record JtagCtx : Type 0 where
  pub sock : Server
  pub curr : Signals

-- `exited`: `exit(1)` on a protocol violation. `waiting`: the response still waits for room.
pub data TickResult : Type 0 where
  updated : JtagCtx → TickResult
  exited waiting : TickResult

-- `(x >> k) & 0x1` and `!x`.
abbrev pub bit : ℕ → ℕ → ℕ
bit x k = x / 2 ^ k % 2

abbrev pub lnot : ℕ → ℕ
lnot x = if x == 0 then 1 else 0

abbrev pub in_range : ℕ → ℕ → ℕ → Bool
in_range lo hi c = leb lo c && leb c hi

unfoldable pub reset_jtag_signals : JtagCtx → JtagCtx
reset_jtag_signals ctx = record ctx {
  curr = record { tck = 0; tms = 0; tdi = 0; tdo = 0; trst_n = 0; srst_n = 1 };
}

-- The branches of `update_jtag_signals` that drive pins.
unfoldable pub jtag_write : JtagCtx → ℕ → JtagCtx
jtag_write ctx cmd_bit = record ctx {
  curr = record (ctx.curr) { tdi = bit cmd_bit 0; tms = bit cmd_bit 1; tck = bit cmd_bit 2 };
}

unfoldable pub jtag_reset : JtagCtx → ℕ → JtagCtx
jtag_reset ctx cmd_bit = record ctx {
  curr = record (ctx.curr) { srst_n = lnot (bit cmd_bit 0); trst_n = lnot (bit cmd_bit 1) };
}

module _ (other : TcpBuf → TcpBuf) (polls : ℕ) where
  -- `act_send_resp`: the response is `(char)(tdo + '0')`.
  unfoldable pub send_response : JtagCtx → TickResult
  send_response ctx = elim (tcp_server_write other polls ctx.sock ((ctx.curr.tdo + b'0') % 2 ^ 8)) [
    | none ↦ waiting
    | some sock ↦ updated (record ctx { sock = sock })
  ]

  -- `act_quit`
  unfoldable pub quit : JtagCtx → TickResult
  quit ctx = elim (tcp_server_client_close ctx.sock) [
    | done _ sock ↦ updated (record ctx { sock = sock })
    | aborted ↦ exited
    | running ↦ waiting
  ]

  unfoldable pub dispatch : JtagCtx → ℕ → TickResult
  unfolding jtag_write jtag_reset send_response quit
  dispatch ctx cmd =
      if in_range b'0' b'7' cmd
      then updated (jtag_write ctx (cmd - b'0'))
      else if in_range b'r' b'u' cmd
      then updated (jtag_reset ctx (cmd - b'r'))
      else if cmd == b'R'
      then send_response ctx
      else if cmd == b'B'
      then updated ctx
      else if cmd == b'b'
      then updated ctx
      else if cmd == b'Q'
      then quit ctx
      else exited

  unfoldable pub update_jtag_signals : JtagCtx → TickResult
  unfolding dispatch
  update_jtag_signals ctx =
      let (r, sock) = tcp_server_read ctx.sock in
      elim r [ none ↦ updated ctx | some cmd ↦ dispatch (record ctx { sock = sock }) cmd ]

  -- The pins that the simulation sees are the fields of `curr` that the result holds.
  unfoldable pub jtagdpi_tick : JtagCtx → ℕ → TickResult
  unfolding update_jtag_signals
  jtagdpi_tick ctx tdo = update_jtag_signals (record ctx { curr = record (ctx.curr) { tdo = tdo } })

unfoldable pub jtagdpi_create : Option (List ℕ) → Option (List ℕ) → ℕ → Option JtagCtx
unfolding reset_jtag_signals
jtagdpi_create storage_in storage_out listen_port =
    elim (tcp_server_create storage_in storage_out listen_port) [
      | none ↦ none
      | some sock ↦ some (
          reset_jtag_signals (record {
            sock = sock;
            curr = record { tck = 0; tms = 0; tdi = 0; tdo = 0; trst_n = 0; srst_n = 0 };
          }))
    ]
