-- ===== src/Tcp/Server/Hangup.antt =====
-- A client that goes away.
use caliptra_ss.Base.{ℕ, ◌∷◌}
use caliptra_ss.Tcp.Os.{Os, Log, yield, send, close}
use caliptra_ss.Tcp.Server.Monad.{Server}

-- The calls up to the point at which the connection is closed because the client is gone.
abbrev pub hung_up : ℕ → ℕ → Log → Log
hung_up cfd y log = close cfd ∷ send cfd y ∷ yield ∷ log
