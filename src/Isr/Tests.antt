-- ===== src/Isr/Tests.antt =====
-- Handlers on concrete hardware.
use caliptra_ss.Base.{◌++◌, arith, ◌≡◌, refl, [], ◌∷◌}
use caliptra_ss.Firmware.{load, Hw, Trace, Fw, done, csrr, csrrw, put_stdout, hang, ◌>>◌}
use caliptra_ss.Csr.Access.{CsrFile, csr_after, csr_write}
use caliptra_ss.Isr.Service.{service, service_soc_ifc_error_intr}
use caliptra_ss.Isr.Serviced.{Clears, service-Clears, service_soc_ifc_error_timers}
use caliptra_ss.Isr.Handler.{nonstd_veer_isr, std_rv_isr}
use caliptra_ss.Isr.Context.{Handled, nonstd_veer_isr-Handled, std_rv_isr_no_dispatch}

abbrev at_entry : CsrFile
at_entry r = 0x1888

abbrev plain : Hw
plain = record { csr_value = λ t r. csr_after t at_entry r; mem_value = λ t addr. 41 }

-- A service that overwrites mepc and the threshold, as a nested handler might.
abbrev overwriting : Fw (Unit {0})
overwriting = csr_write "mepc" 0 >> csr_write "meicurpl" 15

nonstd_veer_isr-Handled_example :
    (t₀ t₁ t' : Trace) × (nonstd_veer_isr plain 0x50000000 overwriting [] ≡ done tt t')
    × Handled plain at_entry overwriting [] t₀ t₁ t'
nonstd_veer_isr-Handled_example =
    nonstd_veer_isr-Handled plain at_entry 0x50000000 overwriting [] (λ t r. refl)
      (λ s. (csrrw "meicurpl" 15 ∷ csrrw "mepc" 0 ∷ s, refl))

-- The cause of an external interrupt.
abbrev external : Hw
external = record { csr_value = λ t r. 0x8000000b; mem_value = λ t addr. 0 }

std_rv_isr_no_dispatch_example :
    std_rv_isr external (λ isr. hang) []
    ≡ done tt (put_stdout 0xfc ∷ csrr "mcause" ∷ put_stdout 0xfb ∷ [])
std_rv_isr_no_dispatch_example = std_rv_isr_no_dispatch external (λ isr. hang) [] refl

-- Two of the bits that the SOC_IFC error routine knows, and a watchdog timer's.
abbrev two_errors : Hw
two_errors = record { csr_value = λ t r. 0; mem_value = λ t addr. 0x45 }

service-Clears_example :
    (events : Trace) × (service two_errors 0x30030814 (0x1 ∷ 0x2 ∷ 0x4 ∷ []) "soc_ifc_error" []
      ≡ done tt (events ++ load 0x30030814 ∷ []))
    × Clears 0x30030814 0x45 (0x1 ∷ 0x2 ∷ 0x4 ∷ []) events
service-Clears_example =
    service-Clears two_errors 0x30030814 (0x1 ∷ 0x2 ∷ 0x4 ∷ []) "soc_ifc_error" []
      (λ e. omega arith)

abbrev watchdog : Hw
watchdog = record { csr_value = λ t r. 0; mem_value = λ t addr. 0x40 }

service_soc_ifc_error_timers_example :
    service_soc_ifc_error_intr watchdog [] ≡ done tt (load 0x30030814 ∷ [])
service_soc_ifc_error_timers_example =
    service_soc_ifc_error_timers watchdog [] (λ e. omega arith) refl
