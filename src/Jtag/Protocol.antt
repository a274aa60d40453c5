-- ===== src/Jtag/Protocol.antt =====
-- The remote_bitbang protocol, as jtagdpi.c cites it: its commands, their bytes, and what a probe
-- does on each. Written apart from the code, which is compared with it.
use caliptra_ss.Base.{ℕ, ◌+◌, ◌*◌, ◌-◌, ◌<◌, List, [], ◌∷◌}

-- A level is 0 or 1. A reset level is 1 while the reset is asserted.
pub data Command : Type 0 where
  write_pins : (tck tms tdi : ℕ) → Command
  reset_pins : (trst srst : ℕ) → Command
  read_tdo blink_on blink_off quit : Command

abbrev pub IsLevel : ℕ → Type 0
IsLevel x = x < 2

abbrev pub IsCommand : Command → Type 0
IsCommand (write_pins tck tms tdi) = IsLevel tck × IsLevel tms × IsLevel tdi
IsCommand (reset_pins trst srst) = IsLevel trst × IsLevel srst
IsCommand _ = Unit

abbrev pub encode : Command → ℕ
encode (write_pins tck tms tdi) = b'0' + 4 * tck + 2 * tms + tdi
encode (reset_pins trst srst) = b'r' + 2 * trst + srst
encode read_tdo = b'R'
encode blink_on = b'B'
encode blink_off = b'b'
encode quit = b'Q'

-- The pins that the probe drives; the two reset pins are active low.
pub record Pins : Type 0 where
  pub tck : ℕ
  pub tms : ℕ
  pub tdi : ℕ
  pub trst_n : ℕ
  pub srst_n : ℕ

abbrev pub drive : Command → Pins → Pins
drive (write_pins tck tms tdi) p = record p { tck = tck; tms = tms; tdi = tdi }
drive (reset_pins trst srst) p = record p { trst_n = 1 - trst; srst_n = 1 - srst }
drive _ p = p

-- What the probe sends back, given the level of tdo.
abbrev pub response : Command → ℕ → List ℕ
response read_tdo tdo = (b'0' + tdo) ∷ []
response _ tdo = []
