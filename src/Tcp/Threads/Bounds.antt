-- ===== src/Tcp/Threads/Bounds.antt =====
-- No interleaving of the two threads leaves the array.
use caliptra_ss.Base.{ℕ, ◌-◌, ◌≤◌, ◌<◌, ◌≡◌, ◌≢◌, List, arith, length, length-set}
use caliptra_ss.Tcp.Buffer.{bufsize_byte}
use caliptra_ss.Tcp.Buffer.Uses.{wrap_wptr}
use caliptra_ss.Tcp.Threads.{
  incremented, wrapping, Threads, Step, see_full, see_room, store_first, increment_last,
  increment_first, store_last, wrap_write, see_empty, see_byte, take_first, pass_last, pass_first,
  take_last, wrap_read, start_with, Reach, here, next, store_slot, increment_wptr, increment_rptr,
  wrap_rptr,
}

-- A pointer is past the end only while its thread is about to wrap it, or has still to move the byte
-- of the slot before it.
pub record IsBounded (s : Threads) : Type 0 where
  pub storage : length s.buf.buf ≡ bufsize_byte
  pub wptr_in : s.writer ≢ wrapping → s.writer ≢ incremented → s.buf.wptr < bufsize_byte
  pub rptr_in : s.reader ≢ wrapping → s.reader ≢ incremented → s.buf.rptr < bufsize_byte
  pub wptr_some : s.writer ≡ incremented → 0 < s.buf.wptr
  pub rptr_some : s.reader ≡ incremented → 0 < s.buf.rptr
  pub wptr_near : s.buf.wptr ≤ bufsize_byte
  pub rptr_near : s.buf.rptr ≤ bufsize_byte

Step-IsBounded : {input : ℕ → ℕ} {s t : Threads} → Step input s t → IsBounded s → IsBounded t
unfolding store_slot increment_wptr wrap_wptr increment_rptr wrap_rptr
Step-IsBounded (see_full e h) b = b
Step-IsBounded (see_room e h) b = ground arith
Step-IsBounded {input} {s} (store_first e) b =
    ground (arith, length-set s.buf.buf s.buf.wptr (input s.puts))
Step-IsBounded (increment_last e) b = ground arith
Step-IsBounded (increment_first e) b = ground arith
Step-IsBounded {input} {s} (store_last e) b =
    ground (arith, length-set s.buf.buf (s.buf.wptr - 1) (input s.puts))
Step-IsBounded (wrap_write e) b = ground arith
Step-IsBounded (see_empty e h) b = b
Step-IsBounded (see_byte e h) b = ground arith
Step-IsBounded (take_first e) b = ground arith
Step-IsBounded (pass_last e) b = ground arith
Step-IsBounded (pass_first e) b = ground arith
Step-IsBounded (take_last e) b = ground arith
Step-IsBounded (wrap_read e) b = ground arith

-- In every state that any interleaving of the threads reaches, torn stores included, the array keeps
-- its size, and a thread that is about to move a byte has inside the array its pointer, or, where the
-- pointer is incremented first, the slot before it.
pub Reach-IsBounded :
    {input : ℕ → ℕ} (storage : List ℕ) {s : Threads}
    → length storage ≡ bufsize_byte
    → Reach input (start_with storage) s
    → IsBounded s
Reach-IsBounded storage h here = ground arith
Reach-IsBounded storage h (next r step) = Step-IsBounded step (Reach-IsBounded storage h r)
