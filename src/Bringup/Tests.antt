-- ===== src/Bringup/Tests.antt =====
-- A run of the bring-up, on a Caliptra that stalls at a breakpoint.
use caliptra_ss.Base.{ℕ, List, ◌≤◌, ◌≡◌, ◌⊎◌, inr, refl, arith, leb, [], ◌∷◌, length, if◌then◌else◌}
use caliptra_ss.Firmware.{Hw, Trace, done, load, store}
use caliptra_ss.Bringup.{
  cptra_flow_status, cptra_fuse_wr_done, cptra_bootfsm_go, boot_wait, boot_done, boot_fsm_ps, main,
}
use caliptra_ss.Bringup.Boots.{stores, IsUp, main_lem}

-- The flow status: BOOT_FUSE, and then READY_FOR_FUSES too, until the fuses are written; after that it
-- reads as 0 in READY_FOR_FUSES, and the boot state goes from BOOT_FW_RST to BOOT_WAIT.
abbrev flow_status : ℕ → List (ℕ × ℕ) → ℕ
flow_status events [] = if leb 2 events then 0x42000000 else 0x02000000
flow_status events (_ ∷ _) = if leb 6 events then 0x06000000 else 0x04000000

abbrev waking : Hw
waking = record { csr_value = λ t r. 0; mem_value = λ t addr. flow_status (length t) (stores t) }

before :
    (events : ℕ) (ss : List (ℕ × ℕ)) → ss ≡ [] → 6 ≤ events → flow_status events ss ≡ 0x42000000
before events [] e h = ground arith
before events (s ∷ ss) e h = ground arith

after :
    (events : ℕ) (s : ℕ × ℕ) (ss : List (ℕ × ℕ))
    → ss ≡ s ∷ []
    → 6 ≤ events
    → flow_status events ss ≡ 0x06000000
after events s [] e h = ground arith
after events s (s' ∷ ss) e h = ground arith

waking-IsUp : IsUp waking 6 []
waking-IsUp = record {
  ready = λ t e h. rw (before (length t) (stores t) e h) (λ e. omega arith);
  stalled = λ t e h.
      rw (after (length t) (cptra_fuse_wr_done, 1) (stores t) e h)
        (inr (unfold boot_fsm_ps in refl));
}

main_lem_example :
    (s : Trace) × (stores s ≡ (cptra_fuse_wr_done, 1) ∷ [])
    × (((boot_fsm_ps (waking.mem_value s cptra_flow_status) ≡ boot_done)
          × (main waking 8 [] ≡ done tt (load cptra_flow_status ∷ s)))
        ⊎ ((boot_fsm_ps (waking.mem_value s cptra_flow_status) ≡ boot_wait)
            × (main waking 8 [] ≡ done tt (store cptra_bootfsm_go 1 ∷ load cptra_flow_status ∷ s))))
main_lem_example = main_lem waking 6 [] waking-IsUp
