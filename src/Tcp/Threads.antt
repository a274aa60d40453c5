-- ===== src/Tcp/Threads.antt =====
-- The two threads at the ends of one buffer, as they run in C: a thread tests the buffer, moves a byte,
-- increments its pointer and wraps it, and the other thread may run between any two of these. C does not
-- say in which order `buf->buf[buf->wptr++] = dat` stores the byte and the pointer, nor in which
-- order the byte of `buf->buf[buf->rptr++]` is read and the pointer stored: the steps allow both.
-- A test reads both pointers at one moment.
pub mod Bounds
pub mod Inv
pub mod Writer
pub mod Fifo
pub mod Races
pub mod Tests
use caliptra_ss.Base.{ℕ, ◌+◌, ◌-◌, ◌%◌, ◌≡◌, ◌≢◌, true, false, List, [], ◌∷◌, ◌++◌, get_or, set}
use caliptra_ss.Tcp.Buffer.{TcpBuf, bufsize_byte, tcp_buffer_is_full, tcp_buffer_is_empty}
use caliptra_ss.Tcp.Buffer.Uses.{wrap_wptr}

-- The single assignments of the two threads, but for `wrap_wptr`.
unfoldable pub store_slot : TcpBuf → ℕ → ℕ → TcpBuf
store_slot b slot dat = record b { buf = set b.buf slot dat }

unfoldable pub increment_wptr : TcpBuf → TcpBuf
increment_wptr b = record b { wptr = b.wptr + 1 }

unfoldable pub increment_rptr : TcpBuf → TcpBuf
increment_rptr b = record b { rptr = b.rptr + 1 }

unfoldable pub wrap_rptr : TcpBuf → TcpBuf
wrap_rptr b = record b { rptr = b.rptr % bufsize_byte }

-- Where a thread stands: before the test; before the byte is moved and the pointer incremented; when
-- only the byte is moved; when only the pointer is incremented; before the pointer is wrapped.
pub data Place : Type 0 where
  testing moving moved incremented wrapping : Place

-- `puts` counts the bytes put, `got` are the bytes taken, oldest first.
pub record Threads : Type 0 where
  pub buf : TcpBuf
  pub writer : Place
  pub reader : Place
  pub puts : ℕ
  pub got : List ℕ

-- What the reader finds in a slot, behind what it has.
abbrev pub fetch : Threads → ℕ → List ℕ
fetch s slot = s.got ++ get_or s.buf.buf slot 0 ∷ []

-- One step of one thread. `input n` is the `n`-th byte that the writer puts. Only the writer changes
-- `wptr`, and only the reader `rptr`: the index that `wptr++` has yielded is `wptr - 1`.
pub data Step (input : ℕ → ℕ) (s : Threads) : Threads → Type 0 where
  see_full : s.writer ≡ testing → tcp_buffer_is_full s.buf ≡ true → Step input s s
  see_room :
      s.writer ≡ testing
      → tcp_buffer_is_full s.buf ≡ false
      → Step input s (record s { writer = moving })
  store_first :
      s.writer ≡ moving
      → Step input s (record s { buf = store_slot s.buf s.buf.wptr (input s.puts); writer = moved })
  increment_last :
      s.writer ≡ moved
      → Step input s (record s { buf = increment_wptr s.buf; writer = wrapping; puts = s.puts + 1 })
  increment_first :
      s.writer ≡ moving
      → Step input s (record s { buf = increment_wptr s.buf; writer = incremented })
  store_last :
      s.writer ≡ incremented
      → Step input s (record s {
        buf = store_slot s.buf (s.buf.wptr - 1) (input s.puts);
        writer = wrapping;
        puts = s.puts + 1;
      })
  wrap_write :
      s.writer ≡ wrapping → Step input s (record s { buf = wrap_wptr s.buf; writer = testing })
  see_empty : s.reader ≡ testing → tcp_buffer_is_empty s.buf ≡ true → Step input s s
  see_byte :
      s.reader ≡ testing
      → tcp_buffer_is_empty s.buf ≡ false
      → Step input s (record s { reader = moving })
  take_first :
      s.reader ≡ moving → Step input s (record s { reader = moved; got = fetch s s.buf.rptr })
  pass_last :
      s.reader ≡ moved → Step input s (record s { buf = increment_rptr s.buf; reader = wrapping })
  pass_first :
      s.reader ≡ moving
      → Step input s (record s { buf = increment_rptr s.buf; reader = incremented })
  take_last :
      s.reader ≡ incremented
      → Step input s (record s { reader = wrapping; got = fetch s (s.buf.rptr - 1) })
  wrap_read :
      s.reader ≡ wrapping → Step input s (record s { buf = wrap_rptr s.buf; reader = testing })

-- Any interleaving, from a buffer as `tcp_buffer_new` makes it.
abbrev pub start_with : List ℕ → Threads
start_with storage = record {
  buf = record { rptr = 0; wptr = 0; buf = storage };
  writer = testing;
  reader = testing;
  puts = 0;
  got = [];
}

pub data Reach (input : ℕ → ℕ) (s : Threads) : Threads → Type 0 where
  here : Reach input s s
  next : {t u : Threads} → Reach input s t → Step input t u → Reach input s u

-- The reader does not find a byte while `wptr` counts one that is not stored yet, nor while `wptr`
-- stands past the end.
abbrev pub IsCalm : {input : ℕ → ℕ} {s t : Threads} → Step input s t → Type 0
IsCalm {s} (see_byte e h) = (s.writer ≢ incremented) × (s.buf.wptr ≢ bufsize_byte)
IsCalm _ = Unit

pub data CalmReach (input : ℕ → ℕ) (s : Threads) : Threads → Type 0 where
  here : CalmReach input s s
  next :
      {t u : Threads}
      → CalmReach input s t
      → (step : Step input t u) → IsCalm step
      → CalmReach input s u
