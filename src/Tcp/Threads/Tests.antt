-- ===== src/Tcp/Threads/Tests.antt =====
-- The writer increments its pointer and then stores a byte, the reader takes it before the writer wraps
-- its pointer.
use caliptra_ss.Base.{ℕ, ◌+◌, ◌≡◌, refl, [], ◌∷◌, replicate, length-replicate, get_or}
use caliptra_ss.Tcp.Buffer.{tcp_buffer_is_full, tcp_buffer_is_empty}
use caliptra_ss.Tcp.Threads.{
  Threads, moving, moved, incremented, wrapping, Step, see_room, increment_first, store_last,
  see_byte, take_first, start_with, store_slot, increment_wptr, Reach, next,
}
use caliptra_ss.Tcp.Threads.Bounds.{IsBounded, Reach-IsBounded}
use caliptra_ss.Tcp.Threads.Races.{Reach-stale}

abbrev counting : ℕ → ℕ
counting n = n + 65

abbrev first : Threads
first = start_with (replicate 1024 0)

abbrev second : Threads
second = record first { writer = moving }

abbrev third : Threads
third = record second { buf = increment_wptr second.buf; writer = incremented }

abbrev fourth : Threads
fourth = record third { buf = store_slot third.buf 0 65; writer = wrapping; puts = 1 }

abbrev fifth : Threads
fifth = record fourth { reader = moving }

abbrev sixth : Threads
sixth = record fifth { reader = moved; got = 65 ∷ [] }

Step-1 : Step counting first second
unfolding tcp_buffer_is_full
Step-1 = see_room refl refl

Step-2 : Step counting second third
Step-2 = increment_first refl

Step-3 : Step counting third fourth
unfolding increment_wptr
Step-3 = store_last refl

Step-4 : Step counting fourth fifth
unfolding tcp_buffer_is_empty increment_wptr store_slot
Step-4 = see_byte refl refl

Step-5 : Step counting fifth sixth
unfolding increment_wptr store_slot
Step-5 = take_first refl

reached : Reach counting first sixth
reached = next (next (next (next (next Reach.here Step-1) Step-2) Step-3) Step-4) Step-5

Reach-IsBounded_example : IsBounded sixth
Reach-IsBounded_example =
    Reach-IsBounded (replicate 1024 0) (length-replicate {A = ℕ} 1024 0) reached

Reach-stale_example :
    (s : Threads) × Reach counting (start_with (replicate 1024 0)) s
    × (s.got ≡ get_or (replicate 1024 0) 0 0 ∷ [])
    × (s.puts ≡ 0)
Reach-stale_example = Reach-stale counting (replicate 1024 0)
