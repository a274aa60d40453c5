-- ===== src/Tcp/Buffer/Inv.antt =====
-- The representation invariant of `struct tcp_buf`, and what holds of one call under it.
use caliptra_ss.Base.{ℕ, ◌+◌, ◌-◌, ◌%◌, ◌<◌, ◌≡◌, true, some, List, arith, length, length-set}
use caliptra_ss.Tcp.Buffer.{
  TcpBuf, bufsize_byte, tcp_buffer_is_full, tcp_buffer_is_empty, store_byte, tcp_buffer_get_byte,
  tcp_buffer_new,
}

pub record IsValid (b : TcpBuf) : Type 0 where
  pub storage : length b.buf ≡ bufsize_byte
  pub rptr_in : b.rptr < bufsize_byte
  pub wptr_in : b.wptr < bufsize_byte

-- How many bytes a buffer holds.
abbrev pub used : TcpBuf → ℕ
used b = (b.wptr + bufsize_byte - b.rptr) % bufsize_byte

pub store_byte-IsValid : {b : TcpBuf} (dat : ℕ) → IsValid b → IsValid (store_byte b dat)
unfolding store_byte
store_byte-IsValid {b} dat v = ground (arith, length-set b.buf b.wptr dat)

-- Taking a byte keeps both pointers inside the array.
pub tcp_buffer_get_byte-IsValid : {b : TcpBuf} → IsValid b → IsValid (tcp_buffer_get_byte b).1
unfolding tcp_buffer_get_byte
tcp_buffer_get_byte-IsValid v = ground arith

pub tcp_buffer_new-IsValid :
    (storage : List ℕ) {b : TcpBuf}
    → length storage ≡ bufsize_byte
    → tcp_buffer_new (some storage) ≡ some b
    → IsValid b × (used b ≡ 0)
unfolding tcp_buffer_new
tcp_buffer_new-IsValid storage h e = ground arith

pub is_full-used : {b : TcpBuf} → IsValid b → tcp_buffer_is_full b ≡ true → used b ≡ 1023
unfolding tcp_buffer_is_full
is_full-used v e = ground arith

pub is_empty-used : {b : TcpBuf} → IsValid b → tcp_buffer_is_empty b ≡ true → used b ≡ 0
unfolding tcp_buffer_is_empty
is_empty-used v e = ground arith

pub used-is_empty : {b : TcpBuf} → IsValid b → used b ≡ 0 → tcp_buffer_is_empty b ≡ true
unfolding tcp_buffer_is_empty
used-is_empty v e = ground arith
