-- ===== src/Tcp/Lifetime/Freed.antt =====
-- What creating and closing a probe leaves allocated.
use caliptra_ss.Base.{
  ℕ, ◌+◌, ◌≡◌, ◌<◌, ◌≤◌, refl, ap, ◌∙◌, arith, Bool, true, false, if◌then◌else◌, Option, none, some,
  List, [], ◌∷◌, All, ◌&&◌,
}
use caliptra_ss.Tcp.Lifetime.{
  use_block, free, is_live, Heap, Outcome, done, aborted, fault, Mem, pure, ◌>>=◌, ◌>>◌, Grants,
  ServerCtx, tcp_buffer_new, tcp_buffer_free, ctx_free, tcp_server_create, tcp_server_close,
  jtagdpi_create, jtagdpi_close,
}

-- A probe that is created and closed again.
abbrev pub session : Grants → Mem (Unit {0})
session g = do ctx ← jtagdpi_create g; jtagdpi_close (some ctx)

-- Every block was given out by the allocator.
abbrev pub IsFresh : Heap → Type 0
IsFresh h = All (λ p. p < h.next) h.live

not_in : (p bound : ℕ) (qs : List ℕ) → bound ≤ p → All (λ q. q < bound) qs → is_live p qs ≡ false
not_in p bound [] l h = refl
not_in p bound (q ∷ qs) l (less, h) = ground (arith, not_in p bound qs l h)

not_live : (p : ℕ) (h : Heap) → IsFresh h → h.next ≤ p → is_live p h.live ≡ false
not_live p h fresh l = not_in p h.next h.live l fresh

-- What becomes of it, from the system's choices.
abbrev pub outcome : Grants → Heap → Outcome (Unit {0})
outcome g h =
    if g.probe && g.context
    then (if g.buf_in && g.buf_out
        then (if g.display_name
            then (if g.thread then done tt (record h { next = h.next + 5 }) else fault)
            else aborted)
        else fault)
    else aborted

-- The context of a server on an empty part of the heap, and `ctx_free` on it.
abbrev server_at : ℕ → ServerCtx
server_at n = record {
  self = n + 1;
  buf_in = some (n + 1 + 1);
  buf_out = some (n + 1 + 1 + 1);
  display_name = some (n + 1 + 1 + 1 + 1);
}

ctx_free_lem :
    (n : ℕ) (qs : List ℕ) (next : ℕ)
    → ctx_free (server_at n) (record {
      live = (n + 1 + 1 + 1 + 1) ∷ (n + 1 + 1 + 1) ∷ (n + 1 + 1) ∷ (n + 1) ∷ n ∷ qs;
      next = next;
    })
      ≡ done tt (record { live = n ∷ qs; next = next })
unfolding ctx_free tcp_buffer_free
ctx_free_lem n qs next = ground arith

freed_twice :
    (h : Heap)
    → IsFresh h
    → free
        (some (h.next + 1))
        (record { live = h.next ∷ h.live; next = h.next + 1 + 1 + 1 + 1 + 1 })
      ≡ fault
freed_twice h fresh = ground (arith, not_live (h.next + 1) h fresh (omega arith))

-- The end of `tcp_server_create` when the thread does not start.
no_thread_lem :
    (h : Heap)
    → IsFresh h
    → (ctx_free (server_at h.next)
          >> (free (some (h.next + 1)) >> pure {A = Option ServerCtx} none))
        (record {
          live =
              (h.next + 1 + 1 + 1 + 1)
              ∷ (h.next + 1 + 1 + 1)
              ∷ (h.next + 1 + 1)
              ∷ (h.next + 1)
              ∷ h.next
              ∷ h.live;
          next = h.next + 1 + 1 + 1 + 1 + 1;
        })
      ≡ fault
no_thread_lem h fresh =
    ap
      (λ (r : Outcome (Unit {0})).
        ((λ _. r) >> (free (some (h.next + 1)) >> pure {A = Option ServerCtx} none)) h)
      (ctx_free_lem h.next h.live (h.next + 1 + 1 + 1 + 1 + 1))
    ∙ ap (λ (r : Outcome (Unit {0})). ((λ _. r) >> pure {A = Option ServerCtx} none) h)
        (freed_twice h fresh)

-- What follows `tcp_server_create` in a session.
abbrev go_on : Heap → Outcome (Option ServerCtx) → Outcome (Unit {0})
go_on h r =
    (((λ _. r) >>= λ sock. use_block h.next >> pure (h.next, sock)) >>= λ ctx.
    jtagdpi_close (some ctx))
      h

abbrev grants : Bool → Bool → Bool → Bool → Bool → Bool → Grants
grants probe context buf_in buf_out display_name thread = record {
  probe = probe;
  context = context;
  buf_in = buf_in;
  buf_out = buf_out;
  display_name = display_name;
  thread = thread;
}

by_cases :
    (probe context buf_in buf_out display_name thread : Bool) (h : Heap)
    → IsFresh h
    → session (grants probe context buf_in buf_out display_name thread) h
      ≡ outcome (grants probe context buf_in buf_out display_name thread) h
unfolding jtagdpi_create jtagdpi_close tcp_server_create tcp_server_close tcp_buffer_new
by_cases false c i o n t h fresh = refl
by_cases true false i o n t h fresh = refl
by_cases true true false o n t h fresh = refl
by_cases true true true false n t h fresh = refl
by_cases true true true true false t h fresh = refl
by_cases true true true true true false h fresh = ap (go_on h) (no_thread_lem h fresh)
by_cases true true true true true true h fresh =
    ground (arith, ctx_free_lem h.next h.live (h.next + 1 + 1 + 1 + 1 + 1))

-- From any heap of blocks that the allocator has given out: a probe that is created and closed
-- again has given back every block that it allocated, and no block is used or freed that is not
-- allocated, if every allocation succeeds and the thread starts. If the allocation of one of the
-- two contexts or of the name is the first to fail, an assertion does. If that of a buffer is, or
-- if the thread does not start, memory is used that is not allocated: in the one case the buffer's,
-- in the other the server's context, which is freed twice.
pub session_lem : (g : Grants) (h : Heap) → IsFresh h → session g h ≡ outcome g h
session_lem g h fresh =
    by_cases g.probe g.context g.buf_in g.buf_out g.display_name g.thread h fresh
