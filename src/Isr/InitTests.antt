-- ===== src/Isr/InitTests.antt =====
-- The set-up and the dispatch on concrete interrupt controllers.
use caliptra_ss.Base.{ℕ, ◌/◌, ◌%◌, ◌^◌, ◌≡◌, refl, [], ◌∷◌, ◌++◌, arith}
use caliptra_ss.Firmware.{Hw, Trace, done, hung, csrrs, csrrc}
use caliptra_ss.Csr.Access.{CsrFile, csr_after}
use caliptra_ss.Isr.Handler.{mstatus_mie, nonstd_veer_isr as veer_isr}
use caliptra_ss.Isr.Pic.{Pic}
use caliptra_ss.Isr.Init.{init_interrupts}
use caliptra_ss.Isr.Init.Registers.{IsSpaced}
use caliptra_ss.Isr.Init.Configured.{Configured, init_interrupts-Configured}
use caliptra_ss.Isr.Init.Masked.{init_interrupts_masked}
use caliptra_ss.Isr.Init.Wraps.{init_interrupts_wrap}

-- An interrupt controller of 31 sources, and one of 255.
abbrev pic_of : ℕ → Pic
pic_of n = record {
  base_addr = 0x60000000;
  meipl_offset = 0;
  meip_offset = 0x1000;
  meie_offset = 0x2000;
  mpiccfg_offset = 0x3000;
  meigwctrl_offset = 0x4000;
  meigwclr_offset = 0x5000;
  total_int = n;
}

pic_of-IsSpaced : IsSpaced (pic_of 31)
pic_of-IsSpaced = record {
  above = omega arith;
  priorities = omega arith;
  enables = omega arith;
  config = omega arith;
  gateways = omega arith;
}

init_interrupts-Configured_example :
    (t' : Trace) × (init_interrupts (pic_of 31) 0x1000 0x50000400 256 [] ≡ done tt t')
    × Configured (pic_of 31) t'
init_interrupts-Configured_example =
    init_interrupts-Configured (pic_of 31) 0x1000 0x50000400 256 [] pic_of-IsSpaced (omega arith)
      (omega arith) (omega arith)

abbrev enabled_before : CsrFile
enabled_before r = 0x1888

init_interrupts_masked_example :
    (events : Trace) × (init_interrupts (pic_of 31) 0x1000 0x50000400 256 []
      ≡ done tt (csrrs "mstatus" mstatus_mie ∷ (events ++ csrrc "mstatus" mstatus_mie ∷ [])))
    × ((xs ys : Trace)
        → events ≡ xs ++ ys
        → csr_after (ys ++ csrrc "mstatus" mstatus_mie ∷ []) enabled_before "mstatus" / 2 ^ 3 % 2
          ≡ 0)
init_interrupts_masked_example =
    init_interrupts_masked (pic_of 31) 0x1000 0x50000400 256 [] enabled_before (omega arith)
      (omega arith) (omega arith)

init_interrupts_wrap_example :
    (t' : Trace) × (init_interrupts (pic_of 255) 0x1000 0x50000400 600 [] ≡ hung t')
init_interrupts_wrap_example = init_interrupts_wrap (pic_of 255) 0x1000 0x50000400 600 [] refl

-- Every register reads as 0, so that a service routine finds nothing pending.
abbrev silent : Hw
silent = record { csr_value = λ t r. 0; mem_value = λ t addr. 0 }
