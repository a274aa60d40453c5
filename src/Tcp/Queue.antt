-- ===== src/Tcp/Queue.antt =====
-- What a `struct tcp_buf` promises its two users: a FIFO of at most BUFSIZE_BYTE - 1 bytes, oldest
-- first. One slot of the array stays unused, so that full and empty differ.
use caliptra_ss.Base.{
  arith, ℕ, ◌≡◌, refl, ap, Bool-cases, inl, inr, append_assoc, Option, none, some, List, [], ◌∷◌,
  ◌++◌, ltb, if◌then◌else◌, length,
}

abbrev pub Queue : Type 0
Queue = List ℕ

abbrev pub capacity : ℕ
capacity = 1023

unfoldable pub get : Queue → Option ℕ × Queue
get [] = (none, [])
get (x ∷ q) = (some x, q)

-- `none`: there is no room.
unfoldable pub put : Queue → ℕ → Option Queue
put q x = if ltb (length q) capacity then some (q ++ x ∷ []) else none

-- Whose turn it is: the writer's, which polls once, or the reader's, which takes a byte if there is one.
pub data Turn : Type 0 where
  writes reads : Turn

-- What turns lead to: what the reader's calls returned, the bytes that the writer has still to put, the
-- first of which it may be waiting to put, and what is left in the store between the two.
pub record Outcome (A : Type 0) : Type 0 where
  pub returns : List (Option ℕ)
  pub waiting : List ℕ
  pub left : A

abbrev pub returning : {A : Type 0} → Option ℕ → Outcome A → Outcome A
returning r o = record o { returns = r ∷ o.returns }

-- The bytes that calls have returned.
abbrev pub received : List (Option ℕ) → List ℕ
received [] = []
received (none ∷ rs) = received rs
received (some x ∷ rs) = x ∷ received rs

-- The writer wants to put some bytes, one after the other. A put that finds no room waits: it is tried
-- again at the writer's next turn.
unfoldable pub run : Queue → List ℕ → List Turn → Outcome Queue
unfolding get put
run q ws [] = record { returns = []; waiting = ws; left = q }
run q [] (writes ∷ ts) = run q [] ts
run q (w ∷ ws) (writes ∷ ts) = elim (put q w) [ none ↦ run q (w ∷ ws) ts | some q' ↦ run q' ws ts ]
run q ws (reads ∷ ts) = returning (get q).0 (run (get q).1 ws ts)

-- Whatever the turns, no byte is lost, none comes twice, and they keep their order: those received, those
-- in the queue and those waiting are the ones there were.
pub run-conserves :
    (q : Queue) (ws : List ℕ) (ts : List Turn)
    → received (run q ws ts).returns ++ ((run q ws ts).left ++ (run q ws ts).waiting) ≡ q ++ ws
unfolding run get put
run-conserves q ws [] = refl
run-conserves q [] (writes ∷ ts) = run-conserves q [] ts
run-conserves q (w ∷ ws) (writes ∷ ts) = elim (Bool-cases (ltb (length q) capacity)) [
  | inl room ↦ ground (arith, room, run-conserves (q ++ w ∷ []) ws ts, append_assoc q (w ∷ []) ws)
  | inr full ↦ ground (arith, full, run-conserves q (w ∷ ws) ts)
]
run-conserves [] ws (reads ∷ ts) = run-conserves [] ws ts
run-conserves (x ∷ q) ws (reads ∷ ts) = ap (λ (l : List ℕ). x ∷ l) (run-conserves q ws ts)
