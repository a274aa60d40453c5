-- ===== src/Tcp/Threads/Races.antt =====
-- What an interleaving that is not calm can do.
use caliptra_ss.Base.{ℕ, ◌≡◌, refl, List, [], ◌∷◌, get_or}
use caliptra_ss.Tcp.Buffer.{tcp_buffer_is_full, tcp_buffer_is_empty}
use caliptra_ss.Tcp.Threads.{
  Threads, see_room, increment_first, see_byte, take_first, start_with, Reach, here, next,
  increment_wptr,
}

-- Some interleaving, from a new buffer with any storage, hands the reader what its first slot happened to
-- hold, while no byte has been put: the writer has incremented `wptr` and not yet stored the byte.
pub Reach-stale :
    (input : ℕ → ℕ) (storage : List ℕ)
    → (s : Threads) × Reach input (start_with storage) s
      × (s.got ≡ get_or storage 0 0 ∷ [])
      × (s.puts ≡ 0)
unfolding tcp_buffer_is_full tcp_buffer_is_empty increment_wptr
Reach-stale input storage = (
  _,
  next (next (next (next here (see_room refl refl)) (increment_first refl)) (see_byte refl refl))
      (take_first refl),
  refl,
  refl,
)
