-- ===== src/Tcp/Threads/Fifo.antt =====
-- The bytes come out as they went in, whatever the interleaving, as long as the reader does not look at
-- `wptr` in the middle of a store.
use caliptra_ss.Tcp.Threads.{Threads}
use caliptra_ss.Tcp.Threads.Inv.{Inv}
