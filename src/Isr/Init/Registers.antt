-- ===== src/Isr/Init/Registers.antt =====
-- Where the arrays of registers of the interrupt controller are, and what a round of the second loop of
-- `init_interrupts` stores in each.
use caliptra_ss.Base.{ℕ, ◌+◌, ◌*◌, ◌≡◌, ◌<◌, ◌≤◌, ◌≢◌, arith, ◌++◌, if◌then◌else◌, some, leb}
use caliptra_ss.Firmware.{Trace}
use caliptra_ss.Isr.Pic.{
  Pic, veer_mm_pic_meipls, veer_mm_pic_meies, veer_mm_pic_meigwctrls, veer_mm_pic_meigwclrs,
}
use caliptra_ss.Isr.Init.Stores.{stored}
use caliptra_ss.Isr.Init.Effects.{closing, round_2}

-- The registers of the sources 1 to 255 lie apart, above those of the components.
pub record IsSpaced (p : Pic) : Type 0 where
  pub above : 0x3003098c < p.base_addr + p.meipl_offset
  pub priorities : p.meipl_offset + 0x400 ≤ p.meie_offset
  pub enables : p.meie_offset + 0x400 ≤ p.mpiccfg_offset
  pub config : p.mpiccfg_offset + 4 ≤ p.meigwctrl_offset
  pub gateways : p.meigwctrl_offset + 0x400 ≤ p.meigwclr_offset

-- What follows the loops stores only below.
pub closing_keeps : (a : ℕ) (t : Trace) → 0x3003098c < a → stored a (closing ++ t) ≡ stored a t
closing_keeps a t h = ground arith

-- The four arrays of registers, and what one round of the second loop does to each.
module _ (p : Pic) (spaced : IsSpaced p) (k vec : ℕ) (h : k < 256) (l : vec < 256) (t : Trace) where
  pub meipls-above : 0x3003098c < veer_mm_pic_meipls p + k * 4
  meipls-above = omega (arith, spaced.above)

  pub meies-above : 0x3003098c < veer_mm_pic_meies p + k * 4
  meies-above = omega (arith, spaced.above, spaced.priorities)

  pub meigwctrls-above : 0x3003098c < veer_mm_pic_meigwctrls p + k * 4
  meigwctrls-above = omega (arith, spaced.above, spaced.priorities, spaced.enables, spaced.config)

  pub meigwclrs-above : 0x3003098c < veer_mm_pic_meigwclrs p + k * 4
  meigwclrs-above =
      omega (arith, spaced.above, spaced.priorities, spaced.enables, spaced.config, spaced.gateways)

  pub meipls-skip :
      stored (veer_mm_pic_meipls p + k * 4) (round_2 p vec ++ t)
      ≡ stored (veer_mm_pic_meipls p + k * 4) t
  meipls-skip = ground (arith, spaced.priorities, spaced.enables, spaced.config, spaced.gateways)

  pub meies-skip :
      vec ≢ k
      → stored (veer_mm_pic_meies p + k * 4) (round_2 p vec ++ t)
        ≡ stored (veer_mm_pic_meies p + k * 4) t
  meies-skip d = ground (arith, spaced.enables, spaced.config, spaced.gateways)

  pub meigwctrls-skip :
      vec ≢ k
      → stored (veer_mm_pic_meigwctrls p + k * 4) (round_2 p vec ++ t)
        ≡ stored (veer_mm_pic_meigwctrls p + k * 4) t
  meigwctrls-skip d = ground (arith, spaced.enables, spaced.config, spaced.gateways)

  pub meigwclrs-skip :
      vec ≢ k
      → stored (veer_mm_pic_meigwclrs p + k * 4) (round_2 p vec ++ t)
        ≡ stored (veer_mm_pic_meigwclrs p + k * 4) t
  meigwclrs-skip d = ground (arith, spaced.enables, spaced.config, spaced.gateways)

  pub meies-hit :
      stored (veer_mm_pic_meies p + k * 4) (round_2 p k ++ t) ≡ some (if leb k 22 then 1 else 0)
  meies-hit = ground arith

  pub meigwctrls-hit : stored (veer_mm_pic_meigwctrls p + k * 4) (round_2 p k ++ t) ≡ some 0
  meigwctrls-hit = ground (arith, spaced.enables, spaced.config, spaced.gateways)

  pub meigwclrs-hit : stored (veer_mm_pic_meigwclrs p + k * 4) (round_2 p k ++ t) ≡ some 0
  meigwclrs-hit = ground (arith, spaced.enables, spaced.config, spaced.gateways)
