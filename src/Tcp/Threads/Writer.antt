-- ===== src/Tcp/Threads/Writer.antt =====
-- The steps of the writer keep the invariant.
use native.Mathlib.Decide.{ℕ_discrete}
use caliptra_ss.Base.{
  ℕ, ◌+◌, ◌-◌, ◌%◌, ◌≤◌, ◌<◌, ◌≡◌, sym, ◌∙◌, List, arith, length-set, get_or, get_or-set_self,
  get_or-set_ne, set, false,
}
use caliptra_ss.Tcp.Buffer.{bufsize_byte, tcp_buffer_is_full}
use caliptra_ss.Tcp.Buffer.Uses.{wrap_wptr}
use caliptra_ss.Tcp.Threads.{
  testing, moving, moved, incremented, wrapping, Threads, store_slot, increment_wptr,
}
use caliptra_ss.Tcp.Threads.Inv.{Inv}

module _ {input : ℕ → ℕ} {s : Threads} {taken : ℕ} (inv : Inv input s taken) where
  -- The writer's test may see `rptr` past the end.
  pub see_room-Inv :
      s.writer ≡ testing
      → tcp_buffer_is_full s.buf ≡ false
      → Inv input (record s { writer = moving }) taken
  unfolding tcp_buffer_is_full
  see_room-Inv e h = ground arith

  pub wrap_write-Inv :
      s.writer ≡ wrapping → Inv input (record s { buf = wrap_wptr s.buf; writer = testing }) taken
  unfolding wrap_wptr
  wrap_write-Inv e = ground arith

  pub increment_first-Inv :
      s.writer ≡ moving
      → Inv input (record s { buf = increment_wptr s.buf; writer = incremented }) taken
  unfolding increment_wptr
  increment_first-Inv e = ground arith

  -- A byte stored does not overwrite one that the reader has still to take.
  store-held :
      (slot : ℕ)
      → slot ≡ s.puts % bufsize_byte
      → s.puts ≤ taken + 1022
      → (i : ℕ) → taken ≤ i + 1
      → i < s.puts
      → get_or (set s.buf.buf slot (input s.puts)) (i % bufsize_byte) 0
        ≡ get_or s.buf.buf (i % bufsize_byte) 0
  store-held slot at few i lo hi =
      get_or-set_ne s.buf.buf (input s.puts) 0 (λ (q : slot ≡ i % bufsize_byte). omega (arith))

  store-new :
      (slot : ℕ)
      → slot ≡ s.puts % bufsize_byte
      → get_or (set s.buf.buf slot (input s.puts)) (s.puts % bufsize_byte) 0 ≡ input s.puts
  store-new slot at =
      rw (sym at) (get_or-set_self s.buf.buf slot (input s.puts) 0 (omega (arith, inv.storage)))

  -- The bytes held once the byte that is stored counts as put.
  one_more :
      (buf : List ℕ)
      → ((i : ℕ) → taken ≤ i → i < s.puts → get_or buf (i % bufsize_byte) 0 ≡ input i)
      → get_or buf (s.puts % bufsize_byte) 0 ≡ input s.puts
      → (i : ℕ) → taken ≤ i
      → i < s.puts + 1
      → get_or buf (i % bufsize_byte) 0 ≡ input i
  one_more buf old new i lo hi = elim (ℕ_discrete i s.puts) [
    | yes last ↦ rw last new
    | no other ↦ old i lo (omega arith)
  ]

  pub increment_last-Inv :
      s.writer ≡ moved
      → Inv input
          (record s { buf = increment_wptr s.buf; writer = wrapping; puts = s.puts + 1 })
          taken
  unfolding increment_wptr
  increment_last-Inv e = ground (arith, one_more s.buf.buf inv.held (inv.held_new e))

  pub store_first-Inv :
      s.writer ≡ moving
      → Inv input
          (record s { buf = store_slot s.buf s.buf.wptr (input s.puts); writer = moved })
          taken
  unfolding store_slot
  store_first-Inv e = record {
    received = inv.received;
    received_one = inv.received_one;
    received_late = inv.received_late;
    storage = length-set s.buf.buf s.buf.wptr (input s.puts) ∙ inv.storage;
    wptr_at = λ h k. at;
    wptr_past = λ h. ground arith;
    wptr_next = λ h. ground arith;
    put_some = λ h. ground arith;
    rptr_at = inv.rptr_at;
    rptr_past = inv.rptr_past;
    rptr_next = inv.rptr_next;
    took_some = inv.took_some;
    took_next = inv.took_next;
    order = inv.order;
    fits = inv.fits;
    room = λ h k. few;
    filled = inv.filled;
    filled_one = inv.filled_one;
    held = λ i lo hi. store-held s.buf.wptr at few i (omega arith) hi ∙ inv.held i lo hi;
    held_late = λ r.
        store-held s.buf.wptr at few (taken - 1) (omega arith)
          (omega (arith, inv.order, inv.took_next r))
        ∙ inv.held_late r;
    held_new = λ h. store-new s.buf.wptr at;
  }
    where
      at : s.buf.wptr ≡ s.puts % bufsize_byte
      at = inv.wptr_at (λ w. cc) (λ w. cc)

      few : s.puts ≤ taken + 1022
      few = inv.room (λ w. cc) (λ w. cc)

  pub store_last-Inv :
      s.writer ≡ incremented
      → Inv input
          (record s {
            buf = store_slot s.buf (s.buf.wptr - 1) (input s.puts);
            writer = wrapping;
            puts = s.puts + 1;
          })
          taken
  unfolding store_slot
  store_last-Inv e = record {
    received = inv.received;
    received_one = inv.received_one;
    received_late = inv.received_late;
    storage = length-set s.buf.buf (s.buf.wptr - 1) (input s.puts) ∙ inv.storage;
    wptr_at = λ h k. ground arith;
    wptr_past = λ h. omega (arith, inv.wptr_next e);
    wptr_next = λ h. ground arith;
    put_some = λ h. omega arith;
    rptr_at = inv.rptr_at;
    rptr_past = inv.rptr_past;
    rptr_next = inv.rptr_next;
    took_some = inv.took_some;
    took_next = inv.took_next;
    order = omega (arith, inv.order);
    fits = omega (arith, few);
    room = λ h k. ground arith;
    filled = λ h. omega (arith, inv.filled h);
    filled_one = λ h. omega (arith, inv.filled_one h);
    held =
        one_more (set s.buf.buf (s.buf.wptr - 1) (input s.puts))
          (λ i lo hi. store-held (s.buf.wptr - 1) at few i (omega arith) hi ∙ inv.held i lo hi)
          (store-new (s.buf.wptr - 1) at);
    held_late = λ r.
        store-held (s.buf.wptr - 1) at few (taken - 1) (omega arith)
          (omega (arith, inv.order, inv.took_next r))
        ∙ inv.held_late r;
    held_new = λ h. ground arith;
  }
    where
      at : s.buf.wptr - 1 ≡ s.puts % bufsize_byte
      at = omega (arith, inv.wptr_next e)

      few : s.puts ≤ taken + 1022
      few = inv.room (λ w. cc) (λ w. cc)
