-- ===== src/Printf/Whole.antt =====
-- `printf` prints every format made of pieces, piece by piece, and returns.
use caliptra_ss.Base.{ℕ, ◌≡◌, List}
use caliptra_ss.Printf.Number.{Printed, printed}

-- A count and bytes.
abbrev pub IsPrinted : Printed → Type 0
IsPrinted p = (n : ℕ) × (bytes : List ℕ) × (p ≡ printed n bytes)
