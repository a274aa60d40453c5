-- ===== src/Isr/Init/Configured.antt =====
-- What `init_interrupts` leaves in the registers of the interrupt controller.
use caliptra_ss.Base.{
  ℕ, ◌+◌, ◌*◌, ◌-◌, ◌≡◌, ◌<◌, ◌≤◌, refl, arith, ◌∙◌, ◌∷◌, ◌++◌, if◌then◌else◌, Option, some, leb,
}
use caliptra_ss.Firmware.{done, Trace, csrrs, csrrc}
use caliptra_ss.Isr.Handler.{mstatus_mie}
use caliptra_ss.Isr.Pic.{
  Pic, veer_mm_pic_meipls, veer_mm_pic_meies, veer_mm_pic_meigwctrls, veer_mm_pic_meigwclrs,
}
use caliptra_ss.Isr.Sources.{
  Source, doe_error, doe_notif, ecc_error, ecc_notif, hmac_error, hmac_notif, kv_error, kv_notif,
  sha512_error, sha512_notif, sha256_error, sha256_notif, qspi_error, qspi_notif, uart_error,
  uart_notif, i3c_error, i3c_notif, soc_ifc_error, soc_ifc_notif, sha512_acc_error,
  sha512_acc_notif, veer_intr_vec, veer_intr_prio,
}
use caliptra_ss.Isr.Init.{init_interrupts, sources}
use caliptra_ss.Isr.Init.Loops.{loop_events}
use caliptra_ss.Isr.Init.Stores.{
  stored, loop_events-skip, loop_events-hit, priority_of, priority_events_lem,
}
use caliptra_ss.Isr.Init.Effects.{
  set_up, gateways_set, all_prioritised, prioritised, closing, middle, opening, round_1, round_2,
  init_interrupts-set_up,
}
use caliptra_ss.Isr.Init.Registers.{
  IsSpaced, closing_keeps, meipls-above, meies-above, meigwctrls-above, meigwclrs-above,
  meipls-skip, meies-skip, meigwctrls-skip, meigwclrs-skip, meies-hit, meigwctrls-hit,
  meigwclrs-hit,
}

abbrev prio_at : Source → Option ℕ → Option ℕ
prio_at s o = priority_of (veer_intr_vec s) sources o

prio_at_lem : (s : Source) (o : Option ℕ) → prio_at s o ≡ some (veer_intr_prio s)
unfolding veer_intr_vec veer_intr_prio
prio_at_lem doe_error o = refl
prio_at_lem doe_notif o = refl
prio_at_lem ecc_error o = refl
prio_at_lem ecc_notif o = refl
prio_at_lem hmac_error o = refl
prio_at_lem hmac_notif o = refl
prio_at_lem kv_error o = refl
prio_at_lem kv_notif o = refl
prio_at_lem sha512_error o = refl
prio_at_lem sha512_notif o = refl
prio_at_lem sha256_error o = refl
prio_at_lem sha256_notif o = refl
prio_at_lem qspi_error o = refl
prio_at_lem qspi_notif o = refl
prio_at_lem uart_error o = refl
prio_at_lem uart_notif o = refl
prio_at_lem i3c_error o = refl
prio_at_lem i3c_notif o = refl
prio_at_lem soc_ifc_error o = refl
prio_at_lem soc_ifc_notif o = refl
prio_at_lem sha512_acc_error o = refl
prio_at_lem sha512_acc_notif o = refl

vec_bound : (s : Source) → veer_intr_vec s ≤ 22
unfolding veer_intr_vec
vec_bound s = ground arith

-- `k` runs over the sources, with a vector or without.
pub record Configured (p : Pic) (t : Trace) : Type 0 where
  pub assigned :
      (s : Source) → stored (veer_mm_pic_meipls p + veer_intr_vec s * 4) t ≡ some (veer_intr_prio s)
  pub unassigned :
      (k : ℕ) → 22 < k → k ≤ p.total_int → stored (veer_mm_pic_meipls p + k * 4) t ≡ some 0
  pub gateway :
      (k : ℕ) → 1 ≤ k → k ≤ p.total_int → stored (veer_mm_pic_meigwctrls p + k * 4) t ≡ some 0
  pub cleared :
      (k : ℕ) → 1 ≤ k → k ≤ p.total_int → stored (veer_mm_pic_meigwclrs p + k * 4) t ≡ some 0
  pub enabled :
      (k : ℕ)
      → 1 ≤ k
      → k ≤ p.total_int
      → stored (veer_mm_pic_meies p + k * 4) t ≡ some (if leb k 22 then 1 else 0)

module _ (p : Pic) (spaced : IsSpaced p) (std_table nonstd_table unassigned : ℕ)
    (total : p.total_int ≡ 22 + unassigned) (small : p.total_int < 255) (t : Trace) where
  -- The second loop and what follows leave the priorities as the first loop has left them.
  late_skip :
      (k : ℕ) (t : Trace)
      → k < 256
      → stored
          (veer_mm_pic_meipls p + k * 4)
          (closing ++ (loop_events (round_2 p) (22 + unassigned) 1 ++ (middle ++ t)))
        ≡ stored (veer_mm_pic_meipls p + k * 4) t
  late_skip k t h =
      closing_keeps (veer_mm_pic_meipls p + k * 4)
        (loop_events (round_2 p) (22 + unassigned) 1 ++ (middle ++ t))
        (meipls-above p spaced k 0 h (omega arith) t)
      ∙ loop_events-skip (round_2 p) (veer_mm_pic_meipls p + k * 4) (22 + unassigned) 1
          (middle ++ t) (λ vec l m. meipls-skip p spaced k vec h (omega arith))

  set_up-Configured : Configured p (set_up p std_table nonstd_table unassigned t)
  set_up-Configured = record {
    assigned = λ s.
        late_skip (veer_intr_vec s) (all_prioritised p std_table nonstd_table unassigned t)
          (omega (arith, vec_bound s))
        ∙ loop_events-skip (round_1 p) (veer_mm_pic_meipls p + veer_intr_vec s * 4) unassigned 23
            (prioritised p std_table nonstd_table unassigned t)
            (λ vec l m t. ground (arith, vec_bound s))
        ∙ priority_events_lem p (veer_intr_vec s) sources (opening p std_table nonstd_table ++ t)
        ∙ prio_at_lem s (
            stored (veer_mm_pic_meipls p + veer_intr_vec s * 4)
              (opening p std_table nonstd_table ++ t));
    unassigned = λ k l m.
        late_skip k (all_prioritised p std_table nonstd_table unassigned t) (omega arith)
        ∙ loop_events-hit (round_1 p) (veer_mm_pic_meipls p + k * 4) unassigned 23
            (prioritised p std_table nonstd_table unassigned t) k 0 (omega arith) (omega arith)
            (λ t. ground arith) (λ vec l m d t. ground arith);
    gateway = λ k l m.
        closing_keeps (veer_mm_pic_meigwctrls p + k * 4)
          (gateways_set p std_table nonstd_table unassigned t)
          (meigwctrls-above p spaced k 0 (omega arith) (omega arith) t)
        ∙ loop_events-hit (round_2 p) (veer_mm_pic_meigwctrls p + k * 4) (22 + unassigned) 1
            (middle ++ all_prioritised p std_table nonstd_table unassigned t) k 0 l (omega arith)
            (λ t. meigwctrls-hit p spaced k 0 (omega arith) (omega arith) t)
            (λ vec from to d t. meigwctrls-skip p spaced k vec (omega arith) (omega arith) t d);
    cleared = λ k l m.
        closing_keeps (veer_mm_pic_meigwclrs p + k * 4)
          (gateways_set p std_table nonstd_table unassigned t)
          (meigwclrs-above p spaced k 0 (omega arith) (omega arith) t)
        ∙ loop_events-hit (round_2 p) (veer_mm_pic_meigwclrs p + k * 4) (22 + unassigned) 1
            (middle ++ all_prioritised p std_table nonstd_table unassigned t) k 0 l (omega arith)
            (λ t. meigwclrs-hit p spaced k 0 (omega arith) (omega arith) t)
            (λ vec from to d t. meigwclrs-skip p spaced k vec (omega arith) (omega arith) t d);
    enabled = λ k l m.
        closing_keeps (veer_mm_pic_meies p + k * 4)
          (gateways_set p std_table nonstd_table unassigned t)
          (meies-above p spaced k 0 (omega arith) (omega arith) t)
        ∙ loop_events-hit (round_2 p) (veer_mm_pic_meies p + k * 4) (22 + unassigned) 1
            (middle ++ all_prioritised p std_table nonstd_table unassigned t) k
            (if leb k 22 then 1 else 0) l (omega arith)
            (λ t. meies-hit p spaced k 0 (omega arith) (omega arith) t)
            (λ vec from to d t. meies-skip p spaced k vec (omega arith) (omega arith) t d);
  }

-- Where the registers of the interrupt controller lie apart, there are at least the 22 sources that
-- have a vector and fewer than 255, and each loop is given 255 rounds or more, `init_interrupts`
-- returns. The last values that it has stored are then: for each source that has a vector its own
-- priority, for the others 0; in the gateway configuration of every source 0, which is active-high
-- level; in every gateway's clear register 0; and in the enable registers 1 for the vectors up to
-- 22 and 0 above.
pub init_interrupts-Configured :
    (p : Pic) (std_table nonstd_table rounds : ℕ) (t : Trace)
    → IsSpaced p
    → 22 ≤ p.total_int
    → p.total_int < 255
    → 255 ≤ rounds
    → (t' : Trace) × (init_interrupts p std_table nonstd_table rounds t ≡ done tt t')
      × Configured p t'
init_interrupts-Configured p std_table nonstd_table rounds t spaced least small enough =
    let unassigned = p.total_int - 22 in
    let total : p.total_int ≡ 22 + unassigned = omega arith in
    let before = csrrc "mstatus" mstatus_mie ∷ t in
    let c = set_up-Configured p spaced std_table nonstd_table unassigned total small before in
    (
      csrrs "mstatus" mstatus_mie ∷ set_up p std_table nonstd_table unassigned before,
      init_interrupts-set_up p unassigned total small std_table nonstd_table rounds t enough,
      record {
        assigned = c.assigned;
        unassigned = c.unassigned;
        gateway = c.gateway;
        cleared = c.cleared;
        enabled = c.enabled;
      },
    )
