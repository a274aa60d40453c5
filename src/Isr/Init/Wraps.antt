-- ===== src/Isr/Init/Wraps.antt =====
-- `init_interrupts` with the most sources that the interrupt controller can have.
use caliptra_ss.Base.{
  ℕ, zero, suc, ◌+◌, ◌%◌, ◌^◌, ◌≡◌, ◌<◌, refl, arith, ◌∙◌, ap, leb, true, ◌∷◌, ◌++◌,
}
use caliptra_ss.Firmware.{Trace, Fw, done, hung, branch, pure, and_then, and_hung, ◌>>◌, csrrc}
use caliptra_ss.Isr.Handler.{mstatus_mie}
use caliptra_ss.Isr.Pic.{Pic}
use caliptra_ss.Isr.Init.{init_interrupts, sources, set_priorities, for_vec, never_interrupt}
use caliptra_ss.Isr.Init.Loops.{priority_events, set_priorities_lem}
use caliptra_ss.Isr.Init.Effects.{opening, round_1}

-- The 8-bit counter is never above 255.
for_vec-hung :
    (body : ℕ → Fw (Unit {0})) (round : ℕ → Trace)
    → ((vec : ℕ) (t : Trace) → body vec t ≡ done tt (round vec ++ t))
    → (rounds vec : ℕ) (t : Trace) → vec < 256
    → (t' : Trace) × (for_vec body 255 rounds vec t ≡ hung t')
unfolding for_vec
for_vec-hung body round body_lem zero vec t h = (t, refl)
for_vec-hung body round body_lem (suc rounds) vec t h =
    let next = (vec + 1) % 2 ^ 8 in
    let (t', rest) = for_vec-hung body round body_lem rounds next (round vec ++ t) (omega arith) in
    let low : leb vec 255 ≡ true = ground arith in
    (
      t',
      ap (λ b. branch b (body vec >> for_vec body 255 rounds next) (pure tt) t) low
          ∙ and_then (body vec) (for_vec body 255 rounds next) t (round vec ++ t) (body_lem vec t)
              rest,
    )

-- With 255 sources, the most for which the interrupt controller has registers, the 8-bit counter of
-- the first loop wraps to 0 before it exceeds the number of sources: whatever number of
-- rounds is given, the loop has not ended after them.
pub init_interrupts_wrap :
    (p : Pic) (std_table nonstd_table rounds : ℕ) (t : Trace)
    → p.total_int ≡ 255
    → (t' : Trace) × (init_interrupts p std_table nonstd_table rounds t ≡ hung t')
unfolding init_interrupts
init_interrupts_wrap p std_table nonstd_table rounds t most =
    let t₁ =
      priority_events p sources
      ++ (opening p std_table nonstd_table ++ csrrc "mstatus" mstatus_mie ∷ t) in
    let (t', stuck) =
      for_vec-hung (never_interrupt p) (round_1 p) (λ vec t. refl) rounds 23 t₁ (omega arith) in
    (
      t',
      and_then (set_priorities p sources) _ _ t₁ (set_priorities_lem p sources _) (
          and_hung (for_vec (never_interrupt p) p.total_int rounds 23) _ t₁ t'
            (ap (λ n. for_vec (never_interrupt p) n rounds 23 t₁) most ∙ stuck)),
    )
