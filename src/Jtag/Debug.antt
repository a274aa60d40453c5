-- ===== src/Jtag/Debug.antt =====
-- The waveform that src/mcu/test_suites/libs/jtagdpi/jtagdpi.c prints when it is built with JTAGDPI_DEBUG.
use caliptra_ss.Base.{ℕ, Bool, ◌&&◌, ◌≡◌, arith, List, [], ◌∷◌, ◌++◌, ◌==◌, if◌then◌else◌, codes}
use caliptra_ss.Jtag.{Signals}

-- The members that the context has in that build.
pub record Debug : Type 0 where
  pub prev : Signals
  pub init : ℕ

-- One signal: a rising edge, high, a falling edge, low.
unfoldable wave : ℕ → ℕ → List ℕ
wave prev curr =
    if prev == 0
    then (if curr == 0 then codes "|    " else 92 ∷ codes "    ")
    else (if curr == 0 then codes "/    " else codes " |   ")

unfoldable waves : Signals → Signals → List ℕ
waves prev curr =
    wave prev.tck curr.tck
    ++ wave prev.tms curr.tms
    ++ wave prev.tdi curr.tdi
    ++ wave prev.tdo curr.tdo
    ++ wave prev.trst_n curr.trst_n
    ++ wave prev.srst_n curr.srst_n
    ++ b'\n' ∷ []

-- What is printed, and the context after it.
unfoldable jtagdpi_dbg : Signals → Debug → List ℕ × Debug
jtagdpi_dbg curr d =
    if d.init == 0
    then (waves d.prev curr, d)
    else (codes "tck  tms  tdi  tdo trst srst" ++ b'\n' ∷ waves d.prev curr, record d { init = 0 })

-- `memcmp` of the signals.
abbrev are_same : Signals → Signals → Bool
are_same a b =
    a.tck == b.tck
    && a.tms == b.tms
    && a.tdi == b.tdi
    && a.tdo == b.tdo
    && a.trst_n == b.trst_n
    && a.srst_n == b.srst_n

-- The part of `jtagdpi_tick`: a line for each change.
unfoldable debug_tick : Signals → Debug → List ℕ × Debug
debug_tick curr d =
    let (out, d') = jtagdpi_dbg curr d in
    if are_same curr d.prev then ([], d) else (out, record d' { prev = curr })

-- A second tick without a change of the signals prints nothing.
debug_tick-twice : (curr : Signals) (d : Debug) → (debug_tick curr (debug_tick curr d).1).0 ≡ []
unfolding debug_tick jtagdpi_dbg
debug_tick-twice curr d = ground arith
