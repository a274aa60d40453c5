-- ===== src/Jtag/Tests.antt =====
-- Runs of the probe on concrete inputs.
use caliptra_ss.Base.{
  ℕ, suc, ap, List, ◌≡◌, ◌++◌, refl, true, [], ◌∷◌, arith, replicate, length-replicate,
}
use caliptra_ss.Tcp.Buffer.{TcpBuf}
use caliptra_ss.Tcp.Buffer.Inv.{IsValid}
use caliptra_ss.Tcp.Buffer.Refine.{contents}
use caliptra_ss.Tcp.Buffer.Spin.{idle}
use caliptra_ss.Jtag.{JtagCtx, updated, exited, jtagdpi_tick}
use caliptra_ss.Jtag.Protocol.{write_pins, reset_pins, read_tdo, blink_on, blink_off, quit}
use caliptra_ss.Jtag.Dispatch.{Later, pins}
use caliptra_ss.Jtag.Refine.{Ticks, IsForeign, jtagdpi_tick-Ticks, jtagdpi_tick-foreign}
use caliptra_ss.Jtag.Session.{Round, ticks, drive_all, responses, client_after_all, ticks_lem}

abbrev no_bytes : TcpBuf
no_bytes = record { rptr = 1023; wptr = 1023; buf = replicate 1024 0 }

no_bytes-IsValid : IsValid no_bytes
no_bytes-IsValid = record {
  storage = length-replicate {A = ℕ} 1024 0;
  rptr_in = omega arith;
  wptr_in = omega arith;
}

-- A buffer that holds two bytes.
abbrev two_bytes : ℕ → ℕ → TcpBuf
two_bytes x y = record { rptr = 0; wptr = 2; buf = x ∷ y ∷ replicate 1022 0 }

two_bytes-IsValid : (x y : ℕ) → IsValid (two_bytes x y)
two_bytes-IsValid x y = record {
  storage = ap (λ (n : ℕ). suc (suc n)) (length-replicate {A = ℕ} 1022 0);
  rptr_in = omega arith;
  wptr_in = omega arith;
}

abbrev probe : TcpBuf → JtagCtx
probe buf_in = record {
  sock = record {
    listen_port = 4567;
    socket_run = true;
    buf_in = buf_in;
    buf_out = no_bytes;
    sfd = 3;
    cfd = 4;
    log = [];
  };
  curr = record { tck = 0; tms = 0; tdi = 0; tdo = 0; trst_n = 0; srst_n = 1 };
}

abbrev rounds : List Round
rounds =
    record { command = write_pins 1 0 1; tdo = 0 } ∷ record { command = read_tdo; tdo = 1 } ∷ []

ticks_lem_example :
    (ctx' : JtagCtx) × (ticks idle 1 (probe (two_bytes b'5' b'R')) (0 ∷ 1 ∷ []) ≡ updated ctx')
    × (pins ctx' ≡ drive_all rounds (pins (probe (two_bytes b'5' b'R'))))
    × (contents ctx'.sock.buf_out ≡ [] ++ responses rounds)
    × IsValid ctx'.sock.buf_out
    × (contents ctx'.sock.buf_in ≡ [])
    × IsValid ctx'.sock.buf_in
    × (ctx'.sock.cfd ≡ client_after_all rounds 4)
    × Later (probe (two_bytes b'5' b'R')).sock ctx'.sock
ticks_lem_example =
    ticks_lem idle 0 rounds (probe (two_bytes b'5' b'R'))
      (((omega arith, omega arith, omega arith), omega arith), ((tt, omega arith), tt))
      (two_bytes-IsValid b'5' b'R') refl no_bytes-IsValid (omega arith)

jtagdpi_tick-Ticks_example :
    (ctx' : JtagCtx) × (jtagdpi_tick idle 1 (probe (two_bytes b's' b'Q')) 1 ≡ updated ctx')
    × Ticks (reset_pins 0 1) (b'Q' ∷ []) 1 (probe (two_bytes b's' b'Q')) ctx'
jtagdpi_tick-Ticks_example =
    jtagdpi_tick-Ticks idle 0 (reset_pins 0 1) (b'Q' ∷ []) 1 (probe (two_bytes b's' b'Q'))
      (omega arith, omega arith) (omega arith) (two_bytes-IsValid b's' b'Q') refl no_bytes-IsValid
      (omega arith)

x-IsForeign : IsForeign b'x'
x-IsForeign (write_pins tck tms tdi) (h, k, l) e = omega arith
x-IsForeign (reset_pins trst srst) (h, k) e = omega arith
x-IsForeign read_tdo h e = omega arith
x-IsForeign blink_on h e = omega arith
x-IsForeign blink_off h e = omega arith
x-IsForeign quit h e = omega arith

jtagdpi_tick-foreign_example : jtagdpi_tick idle 1 (probe (two_bytes b'x' b'R')) 0 ≡ exited
jtagdpi_tick-foreign_example =
    jtagdpi_tick-foreign idle 1 b'x' (b'R' ∷ []) 0 (probe (two_bytes b'x' b'R')) x-IsForeign
      (two_bytes-IsValid b'x' b'R') refl
