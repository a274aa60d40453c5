-- ===== src/Tcp/Threads/Inv.antt =====
-- What holds of the two threads between any two steps, and the steps of the reader.
use caliptra_ss.Base.{
  ℕ, zero, suc, ◌+◌, ◌-◌, ◌%◌, ◌≤◌, ◌<◌, ◌≡◌, ◌≢◌, refl, sym, ◌∙◌, ap, ap₂, List, [], ◌∷◌, ◌++◌,
  arith, length, length-append, get_or, false,
}
use caliptra_ss.Tcp.Buffer.{bufsize_byte, tcp_buffer_is_empty}
use caliptra_ss.Tcp.Threads.{
  testing, moving, moved, incremented, wrapping, Threads, fetch, increment_rptr, wrap_rptr,
}

-- The first `n` bytes of the input, oldest first.
abbrev pub firsts : (ℕ → ℕ) → ℕ → List ℕ
firsts input zero = []
firsts input (suc n) = firsts input n ++ input n ∷ []

pub length-firsts : (input : ℕ → ℕ) (n : ℕ) → length (firsts input n) ≡ n
length-firsts input zero = refl
length-firsts input (suc n) =
    omega (arith, length-append (firsts input n) (input n ∷ []), length-firsts input n)

-- `taken` counts the increments of `rptr`; the bytes put but not taken are in the array, and so is the
-- one that a reader past it has still to read.
pub record Inv (input : ℕ → ℕ) (s : Threads) (taken : ℕ) : Type 0 where
  pub received : s.reader ≢ moved → s.reader ≢ incremented → s.got ≡ firsts input taken
  pub received_one : s.reader ≡ moved → s.got ≡ firsts input (suc taken)
  pub received_late : s.reader ≡ incremented → s.got ≡ firsts input (taken - 1)
  pub storage : length s.buf.buf ≡ bufsize_byte
  pub wptr_at : s.writer ≢ wrapping → s.writer ≢ incremented → s.buf.wptr ≡ s.puts % bufsize_byte
  pub wptr_past : s.writer ≡ wrapping → s.buf.wptr ≡ (s.puts - 1) % bufsize_byte + 1
  pub wptr_next : s.writer ≡ incremented → s.buf.wptr ≡ s.puts % bufsize_byte + 1
  pub put_some : s.writer ≡ wrapping → 0 < s.puts
  pub rptr_at : s.reader ≢ wrapping → s.reader ≢ incremented → s.buf.rptr ≡ taken % bufsize_byte
  pub rptr_past : s.reader ≡ wrapping → s.buf.rptr ≡ (taken - 1) % bufsize_byte + 1
  pub rptr_next : s.reader ≡ incremented → s.buf.rptr ≡ (taken - 1) % bufsize_byte + 1
  pub took_some : s.reader ≡ wrapping → 0 < taken
  pub took_next : s.reader ≡ incremented → 0 < taken
  pub order : taken ≤ s.puts
  pub fits : s.puts ≤ taken + 1023
  pub room : s.writer ≢ testing → s.writer ≢ wrapping → s.puts ≤ taken + 1022
  pub filled : s.reader ≡ moving → taken < s.puts
  pub filled_one : s.reader ≡ moved → taken < s.puts
  pub held : (i : ℕ) → taken ≤ i → i < s.puts → get_or s.buf.buf (i % bufsize_byte) 0 ≡ input i
  pub held_late :
      s.reader ≡ incremented → get_or s.buf.buf ((taken - 1) % bufsize_byte) 0 ≡ input (taken - 1)
  pub held_new : s.writer ≡ moved → get_or s.buf.buf (s.puts % bufsize_byte) 0 ≡ input s.puts

firsts-suc :
    (input : ℕ → ℕ) (n : ℕ) → 0 < n → firsts input n ≡ firsts input (n - 1) ++ input (n - 1) ∷ []
firsts-suc input zero h = absurd (omega arith)
firsts-suc input (suc n) h = ap (λ (k : ℕ). firsts input k ++ input k ∷ []) (below n)
  where
    below : (n : ℕ) → n ≡ suc n - 1
    below n = omega arith

module _ {input : ℕ → ℕ} {s : Threads} {taken : ℕ} (inv : Inv input s taken) where
  pub see_byte-Inv :
      s.reader ≡ testing
      → tcp_buffer_is_empty s.buf ≡ false
      → (s.writer ≢ incremented) × (s.buf.wptr ≢ bufsize_byte)
      → Inv input (record s { reader = moving }) taken
  unfolding tcp_buffer_is_empty
  see_byte-Inv e h calm = ground arith

  pub take_first-Inv :
      s.reader ≡ moving → Inv input (record s { reader = moved; got = fetch s s.buf.rptr }) taken
  take_first-Inv e = ground (arith, received')
    where
      byte : get_or s.buf.buf s.buf.rptr 0 ≡ input taken
      byte =
          ap (λ (i : ℕ). get_or s.buf.buf i 0) (inv.rptr_at (λ w. cc) (λ w. cc))
          ∙ inv.held taken (omega arith) (inv.filled e)

      received' : fetch s s.buf.rptr ≡ firsts input (suc taken)
      received' = ap₂ (λ (l : List ℕ) (x : ℕ). l ++ x ∷ []) (inv.received (λ w. cc) (λ w. cc)) byte

  pub pass_last-Inv :
      s.reader ≡ moved
      → Inv input (record s { buf = increment_rptr s.buf; reader = wrapping }) (suc taken)
  unfolding increment_rptr
  pass_last-Inv e = ground arith

  pub pass_first-Inv :
      s.reader ≡ moving
      → Inv input (record s { buf = increment_rptr s.buf; reader = incremented }) (suc taken)
  unfolding increment_rptr
  pass_first-Inv e = ground (arith, inv.held taken)

  pub take_last-Inv :
      s.reader ≡ incremented
      → Inv input (record s { reader = wrapping; got = fetch s (s.buf.rptr - 1) }) taken
  take_last-Inv e = ground (arith, received')
    where
      slot : s.buf.rptr - 1 ≡ (taken - 1) % bufsize_byte
      slot = omega (arith, inv.rptr_next e)

      byte : get_or s.buf.buf (s.buf.rptr - 1) 0 ≡ input (taken - 1)
      byte = ap (λ (i : ℕ). get_or s.buf.buf i 0) slot ∙ inv.held_late e

      received' : fetch s (s.buf.rptr - 1) ≡ firsts input taken
      received' =
          ap₂ (λ (l : List ℕ) (x : ℕ). l ++ x ∷ []) (inv.received_late e) byte
          ∙ sym (firsts-suc input taken (inv.took_next e))

  pub wrap_read-Inv :
      s.reader ≡ wrapping → Inv input (record s { buf = wrap_rptr s.buf; reader = testing }) taken
  unfolding wrap_rptr
  wrap_read-Inv e = ground arith
