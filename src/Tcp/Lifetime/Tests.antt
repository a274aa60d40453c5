-- ===== src/Tcp/Lifetime/Tests.antt =====
-- A thread that does not start, on a heap with one block.
use caliptra_ss.Base.{◌≡◌, arith, true, false, [], ◌∷◌}
use caliptra_ss.Tcp.Lifetime.{Heap, Grants}
use caliptra_ss.Tcp.Lifetime.Freed.{session, outcome, session_lem}

abbrev one_block : Heap
one_block = record { live = 3 ∷ []; next = 8 }

abbrev no_thread : Grants
no_thread = record {
  probe = true;
  context = true;
  buf_in = true;
  buf_out = true;
  display_name = true;
  thread = false;
}

session_lem_example : session no_thread one_block ≡ outcome no_thread one_block
session_lem_example = session_lem no_thread one_block (omega arith, tt)
