-- ===== src/Tcp/Buffer/Spin.antt =====
-- The polling loop of `tcp_buffer_put_byte`, the two threads in turns at one buffer, and the store of a
-- byte seen one assignment at a time.
use caliptra_ss.Base.{
  ℕ, suc, ◌<◌, ◌≡◌, ◌∙◌, ap, true, false, Option, none, some, List, [], ◌∷◌, ◌++◌, arith,
  Bool-cases, inl, inr, if◌then◌else◌,
}
use caliptra_ss.Tcp.Queue
use caliptra_ss.Tcp.Queue.{Queue, Turn, writes, reads, Outcome, returning}
use caliptra_ss.Tcp.Buffer.{
  TcpBuf, tcp_buffer_is_full, store_byte, tcp_buffer_put_byte, tcp_buffer_get_byte,
}
use caliptra_ss.Tcp.Buffer.Inv.{
  IsValid, used, store_byte-IsValid, tcp_buffer_get_byte-IsValid, is_full-used,
}
use caliptra_ss.Tcp.Buffer.Refine.{contents, length-contents, contents-store_byte, get_byte_refines}

-- A thread that does not touch the buffer, and one that takes a byte between two polls.
abbrev pub idle : TcpBuf → TcpBuf
idle b = b

abbrev pub taker : TcpBuf → TcpBuf
taker b = (tcp_buffer_get_byte b).1

not_full-room : {b : TcpBuf} → IsValid b → tcp_buffer_is_full b ≡ false → used b < 1023
unfolding tcp_buffer_is_full
not_full-room v e = ground arith

pub room-not_full : (b : TcpBuf) → IsValid b → used b < 1023 → tcp_buffer_is_full b ≡ false
unfolding tcp_buffer_is_full
room-not_full b v room = ground arith

-- While there is room, the first poll stores the byte, whatever the other thread does.
pub put_byte-room :
    (other : TcpBuf → TcpBuf) (polls : ℕ) (b : TcpBuf) (x : ℕ)
    → tcp_buffer_is_full b ≡ false
    → tcp_buffer_put_byte other (suc polls) b x ≡ some (store_byte b x)
unfolding tcp_buffer_put_byte
put_byte-room other polls b x e = ground arith

-- With one room at least a single poll is the queue's `put`; with none the call is still waiting.
pub put_byte_refines :
    {b : TcpBuf} (x : ℕ)
    → IsValid b
    → elim (tcp_buffer_put_byte idle 1 b x) [ none ↦ none | some b' ↦ some (contents b') ]
      ≡ Queue.put (contents b) x
unfolding tcp_buffer_put_byte Queue.put
put_byte_refines {b} x v = elim (Bool-cases (tcp_buffer_is_full b)) [
  | inl full ↦ ground (arith, is_full-used v full, length-contents b)
  | inr room ↦ ground (arith, not_full-room v room, length-contents b, contents-store_byte x v)
]

pub put_byte-IsValid :
    {b b' : TcpBuf} (x : ℕ) → IsValid b → tcp_buffer_put_byte idle 1 b x ≡ some b' → IsValid b'
unfolding tcp_buffer_put_byte
put_byte-IsValid {b} x v e = ground (arith, store_byte-IsValid x v)

not_full-taker : {b : TcpBuf} → IsValid b → used b ≡ 1023 → tcp_buffer_is_full (taker b) ≡ false
unfolding tcp_buffer_is_full tcp_buffer_get_byte
not_full-taker v full = ground arith

used-taker : {b : TcpBuf} → IsValid b → used b ≡ 1023 → used (taker b) < 1023
unfolding tcp_buffer_get_byte
used-taker v full = ground arith

-- With a reader that takes a byte between two polls, two polls suffice on any buffer; the byte
-- goes behind what the reader has left.
pub put_byte-taker :
    {b : TcpBuf} (x : ℕ)
    → IsValid b
    → (b' : TcpBuf) × (tcp_buffer_put_byte taker 2 b x ≡ some b')
      × IsValid b'
      × (contents b'
          ≡ (if tcp_buffer_is_full b then (Queue.get (contents b)).1 else contents b) ++ (x ∷ []))
put_byte-taker {b} x v = elim (Bool-cases (tcp_buffer_is_full b)) [
  | inl full ↦
      let w : IsValid (taker b) = tcp_buffer_get_byte-IsValid v in
      let e : used b ≡ 1023 = is_full-used v full in
      (
        store_byte (taker b) x,
        waits x full ∙ put_byte-room taker 0 (taker b) x (not_full-taker v e),
        store_byte-IsValid x w,
        rw full (
            contents-store_byte x w (used-taker v e)
            ∙ ap (λ (p : Option ℕ × Queue). p.1 ++ (x ∷ [])) (get_byte_refines v)),
      )
  | inr room ↦ (
    store_byte b x,
    put_byte-room taker 1 b x room,
    store_byte-IsValid x v,
    rw room (contents-store_byte x v (not_full-room v room)),
  )
]
  where
    waits :
        (x : ℕ)
        → tcp_buffer_is_full b ≡ true
        → tcp_buffer_put_byte taker 2 b x ≡ tcp_buffer_put_byte taker 1 (taker b) x
    waits x full = unfold tcp_buffer_put_byte in rw full

-- The two threads take turns at one buffer. A writer's turn is one poll of the loop of
-- `tcp_buffer_put_byte`: where it finds the buffer full the call goes on at the writer's next turn.
unfoldable pub run_uses : TcpBuf → List ℕ → List Turn → Outcome TcpBuf
run_uses b ws [] = record { returns = []; waiting = ws; left = b }
run_uses b [] (writes ∷ ts) = run_uses b [] ts
run_uses b (w ∷ ws) (writes ∷ ts) = elim (tcp_buffer_put_byte idle 1 b w) [
  | none ↦ run_uses b (w ∷ ws) ts
  | some b' ↦ run_uses b' ws ts
]
run_uses b ws (reads ∷ ts) =
    returning (tcp_buffer_get_byte b).0 (run_uses (tcp_buffer_get_byte b).1 ws ts)
