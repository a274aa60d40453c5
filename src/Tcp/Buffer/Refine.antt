-- ===== src/Tcp/Buffer/Refine.antt =====
-- A valid `struct tcp_buf` behaves as the queue of the bytes between its two pointers.
use caliptra_ss.Base.{
  ℕ, zero, suc, ◌+◌, ◌-◌, ◌%◌, ◌≤◌, ◌<◌, ◌≡◌, refl, ap, ap₂, sym, ◌∙◌, Option, none, some, List, [],
  ◌∷◌, ◌++◌, arith, length, get_or, set, get_or-set_self, get_or-set_ne,
}
use caliptra_ss.Tcp.Queue
use caliptra_ss.Tcp.Queue.{Queue}
use caliptra_ss.Tcp.Buffer.{TcpBuf, store_byte, tcp_buffer_get_byte}
use caliptra_ss.Tcp.Buffer.Inv.{IsValid, used}

-- The `n` bytes from index `h` on, going round at the array's end.
abbrev pub window : List ℕ → ℕ → ℕ → Queue
window buf h zero = []
window buf h (suc n) = get_or buf h 0 ∷ window buf ((h + 1) % 1024) n

abbrev pub contents : TcpBuf → Queue
contents b = window b.buf b.rptr (used b)

length-window : (buf : List ℕ) (h n : ℕ) → length (window buf h n) ≡ n
length-window buf h zero = refl
length-window buf h (suc n) = ap suc (length-window buf ((h + 1) % 1024) n)

pub length-contents : (b : TcpBuf) → length (contents b) ≡ used b
length-contents b = length-window b.buf b.rptr (used b)

-- `window` matches on `suc`, the code compares the pointers.
pub window_of_pos :
    (buf : List ℕ) (h n : ℕ)
    → 0 < n
    → window buf h n ≡ get_or buf h 0 ∷ window buf ((h + 1) % 1024) (n - 1)
window_of_pos buf h zero p = absurd (omega arith)
window_of_pos buf h (suc n) p = ap (λ k. window buf h (suc k)) (omega arith)

-- A byte stored just past a window extends it.
window-set :
    (buf : List ℕ) (x n h i : ℕ)
    → 1024 ≤ length buf
    → h < 1024
    → n < 1023
    → i ≡ (h + n) % 1024
    → window (set buf i x) h (suc n) ≡ window buf h n ++ (x ∷ [])
window-set buf x zero h i hs hh hn e = let e' : i ≡ h = omega arith in ap (λ y. y ∷ []) (head e')
  where
    head : i ≡ h → get_or (set buf i x) h 0 ≡ x
    head e' = cc (get_or-set_self buf h x 0 (omega arith))
window-set buf x (suc n) h i hs hh hn e =
    ap₂ ◌∷◌ (get_or-set_ne buf x 0 (λ (q : i ≡ h). omega arith))
      (window-set buf x n ((h + 1) % 1024) i hs (omega arith) (omega arith) (omega arith))

pub window-eq : (buf : List ℕ) (h n m : ℕ) → n ≡ m → window buf h n ≡ window buf h m
window-eq buf h n m e = ap (window buf h) e

-- Storing a byte appends it to the contents, where there is room for it.
pub contents-store_byte :
    {b : TcpBuf} (x : ℕ)
    → IsValid b
    → used b < 1023
    → contents (store_byte b x) ≡ contents b ++ (x ∷ [])
unfolding store_byte
contents-store_byte {b} x v room =
    window-eq (set b.buf b.wptr x) b.rptr _ (suc (used b)) (omega arith)
    ∙ window-set b.buf x (used b) b.rptr b.wptr (omega arith) (omega arith) room (omega arith)

-- `tcp_buffer_get_byte` returns the oldest byte and leaves the rest, or returns nothing and leaves
-- an empty buffer as it is: it is the queue's `get`.
pub get_byte_refines :
    {b : TcpBuf}
    → IsValid b
    → ((tcp_buffer_get_byte b).0, contents (tcp_buffer_get_byte b).1) ≡ Queue.get (contents b)
unfolding tcp_buffer_get_byte Queue.get
get_byte_refines {b} v = ground (
  arith,
  window_of_pos b.buf b.rptr (used b),
  window-eq b.buf ((b.rptr + 1) % 1024) (used (tcp_buffer_get_byte b).1) (used b - 1),
)

-- The front byte, and what is left behind it.
pub get_byte-front :
    {b : TcpBuf} (x : ℕ) (q : Queue)
    → IsValid b
    → contents b ≡ x ∷ q
    → ((tcp_buffer_get_byte b).0 ≡ some x) × (contents (tcp_buffer_get_byte b).1 ≡ q)
unfolding Queue.get
get_byte-front {b} x q v front = (
  ap (λ (p : Option ℕ × Queue). p.0) (get_byte_refines v)
      ∙ ap (λ (l : Queue). (Queue.get l).0) front,
  ap (λ (p : Option ℕ × Queue). p.1) (get_byte_refines v)
      ∙ ap (λ (l : Queue). (Queue.get l).1) front,
)

-- An empty queue: nothing is read, and the buffer stays as it is.
pub get_byte-nil : {b : TcpBuf} → IsValid b → contents b ≡ [] → tcp_buffer_get_byte b ≡ (none, b)
unfolding tcp_buffer_get_byte
get_byte-nil {b} v e = let l : used b ≡ 0 = sym (length-contents b) ∙ ap length e in ground arith
