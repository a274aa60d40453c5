-- ===== src/Bringup/Boots.antt =====
-- The bring-up returns, with the writes that it must make.
use caliptra_ss.Base.{
  ℕ, zero, suc, ◌+◌, ◌≤◌, ◌≡◌, ◌≢◌, ◌⊎◌, inl, inr, refl, ◌∙◌, ap, arith, Bool-cases, List, [], ◌∷◌,
  length, ◌==◌, bit_and, ◌||◌,
}
use caliptra_ss.Firmware.{Hw, Trace, done, load, store}
use caliptra_ss.Bringup.{
  cptra_flow_status, cptra_fuse_wr_done, cptra_bootfsm_go, ready_for_fuses_mask, boot_wait,
  boot_done, boot_fsm_ps, wait_ready_for_fuses, wait_boot_fsm, main,
}

-- The stores of a trace, newest first.
abbrev pub stores : Trace → List (ℕ × ℕ)
stores [] = []
stores (store addr data' ∷ t) = (addr, data') ∷ stores t
stores (_ ∷ t) = stores t

abbrev pub IsStalled : ℕ → Type 0
IsStalled ps = (ps ≡ boot_done) ⊎ (ps ≡ boot_wait)

-- Caliptra comes up, in a run that starts from the history `t₀`: if no store has been made, it is ready for
-- its fuses from the `n`-th event on; if nothing but the store that the fuses are written has been made,
-- its boot state machine has stalled at a breakpoint or has finished from the `n`-th event on.
-- Nothing is said of READY_FOR_FUSES after that store, nor of the boot state before it.
pub record IsUp (hw : Hw) (n : ℕ) (t₀ : Trace) : Type 0 where
  pub ready :
      (t : Trace)
      → stores t ≡ stores t₀
      → n ≤ length t
      → bit_and (hw.mem_value t cptra_flow_status) ready_for_fuses_mask ≢ 0
  pub stalled :
      (t : Trace)
      → stores t ≡ (cptra_fuse_wr_done, 1) ∷ stores t₀
      → n ≤ length t
      → IsStalled (boot_fsm_ps (hw.mem_value t cptra_flow_status))

abbrev state : Hw → Trace → ℕ
state hw t = boot_fsm_ps (hw.mem_value t cptra_flow_status)

-- As many polls as events are missing, and one more, are enough for the first loop; it stores nothing.
wait_ready_for_fuses_lem :
    (hw : Hw) {n : ℕ} {t₀ : Trace} (polls : ℕ) (t : Trace)
    → IsUp hw n t₀
    → stores t ≡ stores t₀
    → n ≤ polls + length t
    → (t' : Trace) × (wait_ready_for_fuses hw (suc polls) t ≡ done tt t')
      × (stores t' ≡ stores t)
      × (length t ≤ length t')
unfolding wait_ready_for_fuses
wait_ready_for_fuses_lem hw zero t up none_yet h = (
  load cptra_flow_status ∷ t,
  ground (arith, up.ready t none_yet (omega arith)),
  refl,
  omega arith,
)
wait_ready_for_fuses_lem hw (suc polls) t up none_yet h =
    elim (Bool-cases (bit_and (hw.mem_value t cptra_flow_status) ready_for_fuses_mask == 0)) [
      | inl wait ↦
          let (t', runs, same, more) =
            wait_ready_for_fuses_lem hw polls (load cptra_flow_status ∷ t) up none_yet
              (omega arith) in
          (t', ground (arith, wait, runs), same, omega arith)
      | inr ready ↦ (load cptra_flow_status ∷ t, ground (arith, ready), refl, omega arith)
    ]

-- The second loop ends with the state that it read last.
wait_boot_fsm_lem :
    (hw : Hw) {n : ℕ} {t₀ : Trace} (polls : ℕ) (s : Trace)
    → IsUp hw n t₀
    → stores s ≡ (cptra_fuse_wr_done, 1) ∷ stores t₀
    → n ≤ polls + length s
    → (s' : Trace) × (wait_boot_fsm hw (suc (suc polls)) (state hw s) (load cptra_flow_status ∷ s)
        ≡ done (state hw s') (load cptra_flow_status ∷ s'))
      × (stores s' ≡ stores s)
      × IsStalled (state hw s')
unfolding wait_boot_fsm
wait_boot_fsm_lem hw zero s up fused h =
    (s, ground (arith, up.stalled s fused (omega arith)), refl, up.stalled s fused (omega arith))
wait_boot_fsm_lem hw (suc polls) s up fused h =
    elim (Bool-cases (state hw s == boot_done || state hw s == boot_wait)) [
      | inl stalled ↦ (s, ground (arith, stalled), refl, ground (arith, stalled))
      | inr moving ↦
          let (s', runs, same, end) =
            wait_boot_fsm_lem hw polls (load cptra_flow_status ∷ s) up fused (omega arith) in
          (s', ground (arith, moving, runs), same, end)
    ]

-- If Caliptra is ready for its fuses from the `n`-th event on as long as the run has stored nothing, and
-- stalls or finishes its boot from the `n`-th event on once the run has stored that the fuses are written, the program returns, with `n + 2` polls for each loop. It
-- has stored that the fuses are written, and nothing
-- else before its last read of the boot state; where that state is a breakpoint it then stores GO,
-- and where the boot is done it stores nothing more.
pub main_lem :
    (hw : Hw) (n : ℕ) (t : Trace)
    → IsUp hw n t
    → (s : Trace) × (stores s ≡ (cptra_fuse_wr_done, 1) ∷ stores t)
      × (((boot_fsm_ps (hw.mem_value s cptra_flow_status) ≡ boot_done)
            × (main hw (suc (suc n)) t ≡ done tt (load cptra_flow_status ∷ s)))
          ⊎ ((boot_fsm_ps (hw.mem_value s cptra_flow_status) ≡ boot_wait)
              × (main hw (suc (suc n)) t
                  ≡ done tt (store cptra_bootfsm_go 1 ∷ load cptra_flow_status ∷ s))))
unfolding main
main_lem hw n t up =
    let (t₁, ready, same, _) = wait_ready_for_fuses_lem hw (suc n) t up refl (omega arith) in
    let (s, boots, kept, end) =
      wait_boot_fsm_lem hw n (store cptra_fuse_wr_done 1 ∷ t₁) up
        (ap (λ (l : List (ℕ × ℕ)). (cptra_fuse_wr_done, 1) ∷ l) same) (omega arith) in
    (
      s,
      kept ∙ ap (λ (l : List (ℕ × ℕ)). (cptra_fuse_wr_done, 1) ∷ l) same,
      elim end [
        | inl is_done ↦ inl (is_done, ground (arith, ready, boots, is_done))
        | inr waits ↦ inr (waits, ground (arith, ready, boots, waits))
      ],
    )
