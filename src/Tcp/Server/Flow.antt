-- ===== src/Tcp/Server/Flow.antt =====
-- The bytes that the two inner loops of `server_create` move.
use caliptra_ss.Base.{
  ℕ, suc, ◌+◌, ◌≤◌, ◌<◌, zero, ◌≡◌, ◌⊎◌, refl, sym, ◌∙◌, ap, false, List, [], ◌∷◌, ◌++◌, arith,
  append_assoc, append-nil, length, length-append, ◌==◌, if◌then◌else◌,
}
use caliptra_ss.Tcp.Buffer.{TcpBuf, store_byte, tcp_buffer_is_full, tcp_buffer_get_byte}
use caliptra_ss.Tcp.Buffer.Inv.{IsValid, used, store_byte-IsValid, tcp_buffer_get_byte-IsValid}
use caliptra_ss.Tcp.Buffer.Refine.{
  contents, length-contents, contents-store_byte, get_byte-front, get_byte-nil,
}
use caliptra_ss.Tcp.Buffer.Spin.{room-not_full}
use caliptra_ss.Tcp.Os.{Os, Log, yield, read, send, eagain, ReadReturn, SendReturn}
use caliptra_ss.Tcp.Server.Monad.{Server, done, interleave, host_steps}
use caliptra_ss.Tcp.Server.Transfer.{get_byte, put_byte, put_in, receive, transmit}

-- From `log` on the client's socket gives the bytes `xs` and then no more for now, or its end; the
-- simulation thread does nothing meanwhile.
abbrev pub Delivers : Os → ℕ → Log → List ℕ → Type 0
Delivers os cfd log [] =
    (os.read_returns log ≡ ReadReturn.error eagain) ⊎ (os.read_returns log ≡ ReadReturn.end_of_file)
Delivers os cfd log (x ∷ xs) =
    (os.read_returns log ≡ ReadReturn.byte x)
    × (os.host_runs (read cfd ∷ log) ≡ [])
    × Delivers os cfd (yield ∷ read cfd ∷ log) xs

-- From `log` on the client's socket takes the bytes `ys`.
abbrev pub Accepts : Os → ℕ → Log → List ℕ → Type 0
Accepts os cfd log [] = os.host_runs log ≡ []
Accepts os cfd log (y ∷ ys) =
    (os.host_runs log ≡ [])
    × (os.send_returns (yield ∷ log) ≡ SendReturn.written 1)
    × Accepts os cfd (send cfd y ∷ yield ∷ log) ys

-- The bytes sent on a descriptor, oldest first.
abbrev pub sent : ℕ → Log → List ℕ
sent fd [] = []
sent fd (send d y ∷ log) = if d == fd then sent fd log ++ y ∷ [] else sent fd log
sent fd (_ ∷ log) = sent fd log

-- What a client that takes every byte accepts.
pub Accepts-all :
    (os : Os) (cfd : ℕ) (ys : List ℕ) (log : Log)
    → ((l : Log) → os.host_runs l ≡ [])
    → ((l : Log) → os.send_returns l ≡ SendReturn.written 1)
    → Accepts os cfd log ys
Accepts-all os cfd [] log quiet takes = quiet log
Accepts-all os cfd (y ∷ ys) log quiet takes =
    (quiet log, takes (yield ∷ log), Accepts-all os cfd ys (send cfd y ∷ yield ∷ log) quiet takes)

module _ (os : Os) (polls : ℕ) where
  receive_end :
      (rounds : ℕ) (s : Server)
      → Delivers os s.cfd s.log []
      → receive os (suc polls) (suc rounds) s ≡ done tt (record s { log = read s.cfd ∷ s.log })
  unfolding receive get_byte
  receive_end rounds s d = ground arith

  receive_step :
      (rounds : ℕ) (s : Server) (x : ℕ)
      → os.read_returns s.log ≡ ReadReturn.byte x
      → os.host_runs (read s.cfd ∷ s.log) ≡ []
      → tcp_buffer_is_full s.buf_in ≡ false
      → receive os (suc polls) (suc rounds) s
        ≡ receive os
            (suc polls)
            rounds
            (record s { buf_in = store_byte s.buf_in x; log = yield ∷ read s.cfd ∷ s.log })
  unfolding receive get_byte put_in interleave host_steps
  receive_step rounds s x r h room = ground arith

  transmit_end :
      (rounds : ℕ) (s : Server)
      → os.host_runs s.log ≡ []
      → IsValid s.buf_out
      → contents s.buf_out ≡ []
      → transmit os (suc polls) (suc rounds) s ≡ done tt (record s { log = yield ∷ s.log })
  unfolding transmit interleave host_steps
  transmit_end rounds s h v e = ground (arith, get_byte-nil v e)

  transmit_step :
      (rounds : ℕ) (s : Server) (y : ℕ) (ys : List ℕ)
      → os.host_runs s.log ≡ []
      → os.send_returns (yield ∷ s.log) ≡ SendReturn.written 1
      → IsValid s.buf_out
      → contents s.buf_out ≡ y ∷ ys
      → transmit os (suc polls) (suc rounds) s
        ≡ transmit os (suc polls) rounds (record s {
          buf_out = (tcp_buffer_get_byte s.buf_out).1;
          log = send s.cfd y ∷ yield ∷ s.log;
        })
  unfolding transmit put_byte interleave host_steps
  transmit_step rounds s y ys h w v e = ground (arith, h, w, (get_byte-front y ys v e).0)

  -- The bytes that the client's socket gives are appended to the input buffer, in order, and the loop
  -- ends when the socket gives no more, with the connection and the output untouched. It needs room
  -- for the bytes, and more rounds than there are bytes; nothing is sent.
  pub receive_lem :
      (xs : List ℕ) (rounds : ℕ) (s : Server)
      → length xs < rounds
      → Delivers os s.cfd s.log xs
      → IsValid s.buf_in
      → used s.buf_in + length xs ≤ 1023
      → (s' : Server) × (receive os (suc polls) rounds s ≡ done tt s')
        × (contents s'.buf_in ≡ contents s.buf_in ++ xs)
        × IsValid s'.buf_in
        × (sent s.cfd s'.log ≡ sent s.cfd s.log)
        × (length s.log ≤ length s'.log)
        × (s' ≡ record s { buf_in = s'.buf_in; log = s'.log })
  receive_lem xs zero s l d v room = absurd (omega arith)
  receive_lem [] (suc rounds) s l d v room = (
    record s { log = read s.cfd ∷ s.log },
    receive_end rounds s d,
    sym (append-nil _),
    v,
    refl,
    omega arith,
    refl,
  )
  receive_lem (x ∷ xs) (suc rounds) s l (r, h, d) v room =
      let b : TcpBuf = store_byte s.buf_in x in
      let w : IsValid b = store_byte-IsValid x v in
      let more : contents b ≡ contents s.buf_in ++ x ∷ [] = contents-store_byte x v (omega arith) in
      let (s', runs, put, valid, unsent, longer, same) =
        receive_lem xs rounds (record s { buf_in = b; log = yield ∷ read s.cfd ∷ s.log })
          (omega arith) d w
          (omega (
            arith,
            length-contents s.buf_in,
            length-contents b,
            ap length more,
            length-append (contents s.buf_in) (x ∷ []),
          )) in
      (
        s',
        receive_step rounds s x r h (room-not_full s.buf_in v (omega arith)) ∙ runs,
        put ∙ ap (λ (l : List ℕ). l ++ xs) more ∙ append_assoc (contents s.buf_in) (x ∷ []) xs,
        valid,
        unsent,
        omega (arith, longer),
        same,
      )

  -- The bytes of the output buffer are sent to the client, in order, until none is left, with the
  -- connection and the input untouched. It needs a client that takes them, and more rounds
  -- than there are bytes.
  pub transmit_lem :
      (ys : List ℕ) (rounds : ℕ) (s : Server)
      → length ys < rounds
      → Accepts os s.cfd s.log ys
      → IsValid s.buf_out
      → contents s.buf_out ≡ ys
      → (s' : Server) × (transmit os (suc polls) rounds s ≡ done tt s')
        × (contents s'.buf_out ≡ [])
        × IsValid s'.buf_out
        × (sent s.cfd s'.log ≡ sent s.cfd s.log ++ ys)
        × (length s.log ≤ length s'.log)
        × (s' ≡ record s { buf_out = s'.buf_out; log = s'.log })
  transmit_lem ys zero s l a v e = absurd (omega arith)
  transmit_lem [] (suc rounds) s l a v e = (
    record s { log = yield ∷ s.log },
    transmit_end rounds s a v e,
    e,
    v,
    sym (append-nil _),
    omega arith,
    refl,
  )
  transmit_lem (y ∷ ys) (suc rounds) s l (h, w, a) v e =
      let taken : Server = record s {
        buf_out = (tcp_buffer_get_byte s.buf_out).1;
        log = send s.cfd y ∷ yield ∷ s.log;
      } in
      let (s', runs, empty, valid, out, longer, same) =
        transmit_lem ys rounds taken (omega arith) a (tcp_buffer_get_byte-IsValid v)
          (get_byte-front y ys v e).1 in
      let first : sent s.cfd taken.log ≡ sent s.cfd s.log ++ y ∷ [] = ground arith in
      (
        s',
        transmit_step rounds s y ys h w v e ∙ runs,
        empty,
        valid,
        out ∙ ap (λ (l : List ℕ). l ++ ys) first ∙ append_assoc (sent s.cfd s.log) (y ∷ []) ys,
        omega (arith, longer),
        same,
      )
