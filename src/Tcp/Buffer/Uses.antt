-- ===== src/Tcp/Buffer/Uses.antt =====
-- The two threads in any turns at a buffer against the queue, and the store of a byte seen one assignment
-- at a time.
use caliptra_ss.Base.{
  ap, ◌∙◌, ◌++◌, ℕ, ◌+◌, ◌%◌, ◌≡◌, refl, some, List, [], ◌∷◌, arith, get_or, set, get_or-set_self,
  get_or-set_ne, Option-cases, inl, inr,
}
use caliptra_ss.Tcp.Queue
use caliptra_ss.Tcp.Queue.{Queue, Turn, writes, reads, Outcome, received}
use caliptra_ss.Tcp.Buffer.{
  TcpBuf, bufsize_byte, store_byte, tcp_buffer_put_byte, tcp_buffer_get_byte,
}
use caliptra_ss.Tcp.Buffer.Inv.{IsValid, used, tcp_buffer_get_byte-IsValid}
use caliptra_ss.Tcp.Buffer.Refine.{contents, window-eq, get_byte_refines}
use caliptra_ss.Tcp.Buffer.Spin.{idle, run_uses, put_byte_refines, put_byte-IsValid}

-- An outcome with the buffer seen as the queue of its contents.
abbrev pub abstract_left : Outcome TcpBuf → Outcome Queue
abstract_left o = record { returns = o.returns; waiting = o.waiting; left = contents o.left }

uses_refine :
    (ws : List ℕ) (ts : List Turn) {b : TcpBuf}
    → IsValid b
    → abstract_left (run_uses b ws ts) ≡ Queue.run (contents b) ws ts
unfolding run_uses Queue.run
uses_refine ws [] v = refl
uses_refine [] (writes ∷ ts) v = uses_refine [] ts v
uses_refine (w ∷ ws) (writes ∷ ts) {b} v = elim (Option-cases (tcp_buffer_put_byte idle 1 b w)) [
  | inl e ↦ ground (arith, put_byte_refines w v, uses_refine (w ∷ ws) ts v)
  | inr (b', e) ↦ ground (arith, put_byte_refines w v, uses_refine ws ts (put_byte-IsValid w v e))
]
uses_refine ws (reads ∷ ts) {b} v = ground (
  arith,
  get_byte_refines v,
  uses_refine ws ts {b = (tcp_buffer_get_byte b).1} (tcp_buffer_get_byte-IsValid v),
)

-- Whatever turns the two threads take at a valid buffer, the calls of the reader return what they return on
-- a bounded FIFO of its contents, the writer is waiting with the same bytes, and the buffer ends with
-- the FIFO's contents; no byte is lost, none comes twice and they keep their order: the bytes
-- received, those in the buffer and those waiting are the ones there were.
pub run_uses_refines :
    (ws : List ℕ) (ts : List Turn) {b : TcpBuf}
    → IsValid b
    → (abstract_left (run_uses b ws ts) ≡ Queue.run (contents b) ws ts)
      × (received (run_uses b ws ts).returns
            ++ (contents (run_uses b ws ts).left ++ (run_uses b ws ts).waiting)
          ≡ contents b ++ ws)
run_uses_refines ws ts {b} v =
    let same = uses_refine ws ts v in
    (
      same,
      ap (λ (o : Outcome Queue). received o.returns ++ (o.left ++ o.waiting)) same
          ∙ Queue.run-conserves (contents b) ws ts,
    )

-- `buf->buf[buf->wptr++] = dat;` and `buf->wptr %= BUFSIZE_BYTE;` are two assignments to memory
-- that the other thread reads.
unfoldable pub advance_wptr : TcpBuf → ℕ → TcpBuf
advance_wptr b dat = record b { buf = set b.buf b.wptr dat; wptr = b.wptr + 1 }

unfoldable pub wrap_wptr : TcpBuf → TcpBuf
wrap_wptr b = record b { wptr = b.wptr % bufsize_byte }

-- Run together, the two assignments are the store of a byte.
pub wrap_wptr-advance_wptr : (b : TcpBuf) (x : ℕ) → wrap_wptr (advance_wptr b x) ≡ store_byte b x
unfolding wrap_wptr advance_wptr store_byte
wrap_wptr-advance_wptr b x = refl

-- A reader that runs between the two assignments of a store into the last slot of an empty buffer
-- gets the byte just stored, and then gets array element 0, which nobody has put: the buffer was
-- emptied by the first read. After the second assignment the buffer claims to hold 1023 bytes.
pub torn_put :
    {b : TcpBuf} (x : ℕ)
    → IsValid b
    → b.rptr ≡ 1023
    → b.wptr ≡ 1023
    → let b₁ = advance_wptr b x in
      let (r₁, b₂) = tcp_buffer_get_byte b₁ in
      let (r₂, b₃) = tcp_buffer_get_byte b₂ in
      (contents b ≡ [])
      × (r₁ ≡ some x)
      × (r₂ ≡ some (get_or b.buf 0 0))
      × (used (wrap_wptr b₃) ≡ 1023)
unfolding tcp_buffer_get_byte advance_wptr wrap_wptr
torn_put {b} x v er ew = (
  window-eq b.buf b.rptr (used b) 0 (omega arith),
  ground (arith, get_or-set_self b.buf b.wptr x 0),
  ground (arith, second),
  ground arith,
)
  where
    second : get_or (set b.buf b.wptr x) 0 0 ≡ get_or b.buf 0 0
    second = get_or-set_ne b.buf x 0 (λ (e : b.wptr ≡ 0). omega arith)
