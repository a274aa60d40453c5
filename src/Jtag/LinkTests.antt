-- ===== src/Jtag/LinkTests.antt =====
-- A client that drives the pins and then reads tdo.
use caliptra_ss.Base.{
  ℕ, true, List, ◌≡◌, ◌<◌, Bool, false, length, ◌==◌, refl, inl, inr, [], ◌∷◌, ◌++◌, arith,
  replicate, length-replicate,
}
use caliptra_ss.Tcp.Buffer.{TcpBuf}
use caliptra_ss.Tcp.Buffer.Inv.{IsValid}
use caliptra_ss.Tcp.Buffer.Refine.{contents}
use caliptra_ss.Tcp.Buffer.Spin.{idle}
use caliptra_ss.Tcp.Server.Monad.{Server, done}
use caliptra_ss.Tcp.Server.Thread.{serve}
use caliptra_ss.Tcp.Os.{Os, Log}
use caliptra_ss.Tcp.Server.Flow.{sent}
use caliptra_ss.Tcp.FlowTests.{client}
use caliptra_ss.Jtag.{JtagCtx, updated}
use caliptra_ss.Jtag.Protocol.{write_pins, read_tdo}
use caliptra_ss.Jtag.Dispatch.{pins}
use caliptra_ss.Jtag.Session.{Round, ticks, drive_all, responses}
use caliptra_ss.Jtag.Link.{link_lem}

abbrev empty : TcpBuf
empty = record { rptr = 1000; wptr = 1000; buf = replicate 1024 0 }

empty-IsValid : IsValid empty
empty-IsValid = record {
  storage = length-replicate {A = ℕ} 1024 0;
  rptr_in = omega arith;
  wptr_in = omega arith;
}

abbrev connected : JtagCtx
connected = record {
  sock = record {
    listen_port = 4567;
    socket_run = true;
    buf_in = empty;
    buf_out = empty;
    sfd = 3;
    cfd = 4;
    log = [];
  };
  curr = record { tck = 0; tms = 0; tdi = 0; tdo = 0; trst_n = 0; srst_n = 1 };
}

abbrev two_rounds : List Round
two_rounds =
    record { command = write_pins 1 0 1; tdo = 0 } ∷ record { command = read_tdo; tdo = 1 } ∷ []

-- `select` reports the client while no call has been made, and nothing later.
abbrev reported : Log → ℕ → Bool
reported [] fd = fd == 4
reported (c ∷ log) fd = false

abbrev once : Os
once = record (client b'5' b'R') {
  select_returns = λ log. record { is_negative = false; is_set = reported log };
}

reported_later : (log : Log) (fd : ℕ) → 0 < length log → reported log fd ≡ false
reported_later [] fd h = absurd (omega arith)
reported_later (c ∷ log) fd h = refl

not_listening : (log : Log) → reported log 3 ≡ false
not_listening [] = refl
not_listening (c ∷ log) = refl

link_lem_example :
    (s₁ : Server) × (ctx₂ : JtagCtx) × (s₃ : Server) × (serve once 5 connected.sock ≡ done tt s₁)
    × (ticks idle 5 (record connected { sock = s₁ }) (0 ∷ 1 ∷ []) ≡ updated ctx₂)
    × (serve once 5 ctx₂.sock ≡ done tt s₃)
    × (pins ctx₂ ≡ drive_all two_rounds (pins connected))
    × (sent 4 s₃.log ≡ [] ++ responses two_rounds)
    × (contents s₃.buf_in ≡ [])
    × (contents s₃.buf_out ≡ [])
    × (s₃.cfd ≡ 4)
link_lem_example =
    link_lem once idle 4 two_rounds connected
      (((omega arith, omega arith, omega arith), omega arith), ((tt, omega arith), tt))
      (refl, (refl, tt)) (omega arith) (omega arith) (λ e. omega arith) empty-IsValid refl
      empty-IsValid refl (λ l. refl) not_listening
      (inl (refl, (refl, refl, (refl, refl, inl refl))))
      (λ s h. inr (reported_later s.log s.cfd h, refl)) (λ l. refl) (λ l. refl)
