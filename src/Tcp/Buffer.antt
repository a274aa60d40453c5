-- ===== src/Tcp/Buffer.antt =====
-- `struct tcp_buf` and its functions: a ring of 1024 bytes with a read and a write pointer.
-- Bytes are moved and never computed with, so a byte is any number.
pub mod Inv
pub mod Refine
pub mod Spin
pub mod Uses
use caliptra_ss.Base.{
  ℕ, zero, suc, ◌+◌, ◌-◌, ◌%◌, Bool, true, false, Option, none, some, List, ◌==◌, leb,
  if◌then◌else◌, get_or, set,
}

-- BUFSIZE_BYTE
abbrev pub bufsize_byte : ℕ
bufsize_byte = 1024

pub record TcpBuf : Type 0 where
  pub rptr : ℕ
  pub wptr : ℕ
  pub buf : List ℕ

-- Both differences are taken on the side where the unsigned subtraction does not wrap.
unfoldable pub tcp_buffer_is_full : TcpBuf → Bool
tcp_buffer_is_full b =
    if leb b.rptr b.wptr then (b.wptr - b.rptr) == (bufsize_byte - 1) else (b.rptr - b.wptr) == 1

unfoldable pub tcp_buffer_is_empty : TcpBuf → Bool
tcp_buffer_is_empty b = b.wptr == b.rptr

-- The body of the `if` in `tcp_buffer_put_byte`: store, advance, wrap.
unfoldable pub store_byte : TcpBuf → ℕ → TcpBuf
store_byte b dat = record b { buf = set b.buf b.wptr dat; wptr = (b.wptr + 1) % bufsize_byte }

-- `while (!done)`: the loop polls until there is room. `other` is what the thread at the other
-- end does to the buffer between two polls; `none` means that the polls ran out.
unfoldable pub tcp_buffer_put_byte : (TcpBuf → TcpBuf) → ℕ → TcpBuf → ℕ → Option TcpBuf
unfolding tcp_buffer_is_full store_byte
tcp_buffer_put_byte other zero b dat = none
tcp_buffer_put_byte other (suc polls) b dat =
    let spin = tcp_buffer_put_byte other polls (other b) dat in
    if tcp_buffer_is_full b then spin else some (store_byte b dat)

-- `none` is the return of `false`; a read outside the array gives 0, which `IsValid` rules out.
unfoldable pub tcp_buffer_get_byte : TcpBuf → Option ℕ × TcpBuf
unfolding tcp_buffer_is_empty
tcp_buffer_get_byte b =
    if tcp_buffer_is_empty b
    then (none, b)
    else (some (get_or b.buf b.rptr 0), record b { rptr = (b.rptr + 1) % bufsize_byte })

-- The argument is what `malloc` returns: nothing, or storage with whatever it held. The pointers
-- are written with no test of it, so a failed allocation is a fault, `none`.
unfoldable pub tcp_buffer_new : Option (List ℕ) → Option TcpBuf
tcp_buffer_new none = none
tcp_buffer_new (some storage) = some (record { rptr = 0; wptr = 0; buf = storage })

-- `free(*buf); *buf = NULL;` on the pointer that holds the buffer.
unfoldable pub tcp_buffer_free : Option TcpBuf → Option TcpBuf
tcp_buffer_free b = none
