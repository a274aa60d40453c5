-- ===== src/Isr/Init/Effects.antt =====
-- The events of a run of `init_interrupts`.
use caliptra_ss.Base.{
  ℕ, ◌+◌, ◌*◌, ◌≡◌, ◌<◌, ◌≤◌, refl, arith, [], ◌∷◌, ◌++◌, if◌then◌else◌, bit_or, leb,
}
use caliptra_ss.Firmware.{and_then, done, Trace, store, fence, csrrw, csrrs, csrrc}
use caliptra_ss.Isr.Handler.{mstatus_mie}
use caliptra_ss.Isr.Pic.{
  Pic, veer_mm_pic_meipls, veer_mm_pic_meies, veer_mm_pic_mpiccfg, veer_mm_pic_meigwctrls,
  veer_mm_pic_meigwclrs, mie_enabled, veer_meigwctrl,
}
use caliptra_ss.Isr.Init.{
  init_interrupts, sources, set_priorities, for_vec, enable_components, never_interrupt,
  configure_gateway,
}
use caliptra_ss.Isr.Init.Loops.{loop_events, priority_events, for_vec_lem, set_priorities_lem}

module _ (p : Pic) where
  abbrev pub round_1 : ℕ → Trace
  round_1 vec = fence ∷ store (veer_mm_pic_meipls p + vec * 4) 0 ∷ []

  abbrev pub round_2 : ℕ → Trace
  round_2 vec =
      fence
      ∷ store (veer_mm_pic_meies p + vec * 4) (if leb vec 22 then 1 else 0)
      ∷ fence
      ∷ store (veer_mm_pic_meigwclrs p + vec * 4) 0
      ∷ fence
      ∷ store (veer_mm_pic_meigwctrls p + vec * 4) 0
      ∷ []

-- The straight-line pieces.
abbrev pub opening : Pic → ℕ → ℕ → Trace
opening p std_table nonstd_table =
    csrrw "meipt" 0
    ∷ fence
    ∷ store (veer_mm_pic_mpiccfg p) 0
    ∷ csrrw "meivt" nonstd_table
    ∷ csrrw "mtvec" (bit_or std_table 1)
    ∷ []

abbrev pub middle : Trace
middle = csrrw "meicurpl" 0 ∷ csrrw "meicidpl" 0 ∷ []

abbrev pub closing : Trace
closing =
    csrrs "mie" mie_enabled
    ∷ csrrw "mdccmect" 0xd0000000
    ∷ csrrw "miccmect" 0xd0000000
    ∷ csrrw "micect" 0xd0000000
    ∷ store 0x3003064c 0xFFFFFFFF
    ∷ store 0x30030648 0xFFFFFFFF
    ∷ store 0x30021800 0x3
    ∷ store 0x30021808 0x1
    ∷ store 0x30030800 0x3
    ∷ store 0x30030808 0x3f
    ∷ store 0x30030804 0xff
    ∷ store 0x3003098c 0
    ∷ store 0x30030988 0
    ∷ store 0x30030818 0x8
    ∷ store 0x30030818 0x4
    ∷ store 0x10028800 0x3
    ∷ store 0x10028808 0x1
    ∷ store 0x10028804 0x3
    ∷ store 0x10020800 0x3
    ∷ store 0x10020808 0x1
    ∷ store 0x10010800 0x3
    ∷ store 0x10010808 0x1
    ∷ store 0x10008800 0x3
    ∷ store 0x10008808 0x1
    ∷ store 0x10008804 0x1
    ∷ store 0x10000800 0x3
    ∷ store 0x10000808 0x1
    ∷ []

-- Everything from the clearing of the interrupt enable on: after the priorities, after the first
-- loop, after the second, and up to the setting of the interrupt enable.
module _ (p : Pic) (std_table nonstd_table unassigned : ℕ) (t : Trace) where
  abbrev pub prioritised : Trace
  prioritised = priority_events p sources ++ (opening p std_table nonstd_table ++ t)

  abbrev pub all_prioritised : Trace
  all_prioritised = loop_events (round_1 p) unassigned 23 ++ prioritised

  abbrev pub gateways_set : Trace
  gateways_set = loop_events (round_2 p) (22 + unassigned) 1 ++ (middle ++ all_prioritised)

  abbrev pub set_up : Trace
  set_up = closing ++ gateways_set

-- How the parts run when each of the three loops ends.
runs :
    (p : Pic) (std_table nonstd_table rounds : ℕ) (t t₁ t₂ t₃ : Trace)
    → set_priorities p sources (opening p std_table nonstd_table ++ csrrc "mstatus" mstatus_mie ∷ t)
      ≡ done tt t₁
    → for_vec (never_interrupt p) p.total_int rounds 23 t₁ ≡ done tt t₂
    → for_vec (configure_gateway p) p.total_int rounds 1 (middle ++ t₂) ≡ done tt t₃
    → init_interrupts p std_table nonstd_table rounds t
      ≡ done tt (csrrs "mstatus" mstatus_mie ∷ closing ++ t₃)
unfolding init_interrupts enable_components
runs p std_table nonstd_table rounds t t₁ t₂ t₃ e₁ e₂ e₃ =
    and_then (set_priorities p sources) _ _ _ e₁ (
      and_then (for_vec (never_interrupt p) p.total_int rounds 23) _ _ _ e₂
        (and_then (for_vec (configure_gateway p) p.total_int rounds 1) _ _ _ e₃ refl))

-- Fewer than 255 sources, so that the 8-bit counters do not wrap, and all that have a vector.
module _ (p : Pic) (unassigned : ℕ) (total : p.total_int ≡ 22 + unassigned)
    (small : p.total_int < 255) where
  pub init_interrupts-set_up :
      (std_table nonstd_table rounds : ℕ) (t : Trace)
      → 255 ≤ rounds
      → init_interrupts p std_table nonstd_table rounds t
        ≡ done tt (
            csrrs "mstatus" mstatus_mie
            ∷ set_up p std_table nonstd_table unassigned (csrrc "mstatus" mstatus_mie ∷ t))
  unfolding veer_meigwctrl
  init_interrupts-set_up std_table nonstd_table rounds t enough =
      runs p std_table nonstd_table rounds t _ _ _ (set_priorities_lem p sources _)
        (for_vec_lem (never_interrupt p) (round_1 p) (λ vec t. refl) p.total_int small unassigned
          rounds 23 _ (omega arith) (omega arith))
        (for_vec_lem (configure_gateway p) (round_2 p) (λ vec t. refl) p.total_int small
          (22 + unassigned) rounds 1 _ (omega arith) (omega arith))
