-- ===== src/Isr/Init/Masked.antt =====
-- Interrupts are off while `init_interrupts` sets them up.
use caliptra_ss.Base.{
  ℕ, zero, suc, ◌+◌, ◌*◌, ◌-◌, ◌/◌, ◌%◌, ◌^◌, subst, append_assoc, ◌≡◌, ◌<◌, ◌≤◌, refl, arith, ◌∙◌,
  ap, List, [], ◌∷◌, ◌++◌, All, All-append,
}
use caliptra_ss.Base.Bits.{bit_and_clear}
use caliptra_ss.Firmware.{Event, done, Trace, store, fence, csrrs, csrrc}
use caliptra_ss.Csr.Access.{CsrFile, csr_after}
use caliptra_ss.Isr.Handler.{mstatus_mie}
use caliptra_ss.Isr.Pic.{Pic, veer_mm_pic_meipls}
use caliptra_ss.Isr.Sources.{Source, veer_intr_vec, veer_intr_prio}
use caliptra_ss.Isr.Init.{init_interrupts, sources}
use caliptra_ss.Isr.Init.Loops.{loop_events, priority_events}
use caliptra_ss.Isr.Init.Effects.{
  set_up, gateways_set, all_prioritised, prioritised, closing, middle, opening, round_1, round_2,
  init_interrupts-set_up,
}

-- An event that leaves mstatus as it is.
abbrev pub LeavesMstatus : Event → Type 0
LeavesMstatus e = (f : CsrFile) → csr_after (e ∷ []) f "mstatus" ≡ f "mstatus"

loop_events-LeavesMstatus :
    (round : ℕ → Trace)
    → ((k : ℕ) → All LeavesMstatus (round k))
    → (count vec : ℕ) → All LeavesMstatus (loop_events round count vec)
unfolding loop_events
loop_events-LeavesMstatus round each zero vec = tt
loop_events-LeavesMstatus round each (suc count) vec =
    All-append LeavesMstatus (loop_events round count (vec + 1)) (round vec)
      (loop_events-LeavesMstatus round each count (vec + 1)) (each vec)

priority_events-LeavesMstatus :
    (p : Pic) (ss : List Source) → All LeavesMstatus (priority_events p ss)
unfolding priority_events
priority_events-LeavesMstatus p [] = tt
priority_events-LeavesMstatus p (s ∷ ss) =
    All-append LeavesMstatus (priority_events p ss)
      (fence ∷ store (veer_mm_pic_meipls p + veer_intr_vec s * 4) (veer_intr_prio s) ∷ [])
      (priority_events-LeavesMstatus p ss) ((λ f. refl), ((λ f. refl), tt))

closing-LeavesMstatus : All LeavesMstatus closing
closing-LeavesMstatus = (
  (λ f. refl),
  (
    (λ f. refl),
    (
      (λ f. refl),
      (
        (λ f. refl),
        (
          (λ f. refl),
          (
            (λ f. refl),
            (
              (λ f. refl),
              (
                (λ f. refl),
                (
                  (λ f. refl),
                  (
                    (λ f. refl),
                    (
                      (λ f. refl),
                      (
                        (λ f. refl),
                        (
                          (λ f. refl),
                          (
                            (λ f. refl),
                            (
                              (λ f. refl),
                              (
                                (λ f. refl),
                                (
                                  (λ f. refl),
                                  (
                                    (λ f. refl),
                                    (
                                      (λ f. refl),
                                      (
                                        (λ f. refl),
                                        (
                                          (λ f. refl),
                                          (
                                            (λ f. refl),
                                            (
                                              (λ f. refl),
                                              (
                                                (λ f. refl),
                                                ((λ f. refl), ((λ f. refl), ((λ f. refl), tt))),
                                              ),
                                            ),
                                          ),
                                        ),
                                      ),
                                    ),
                                  ),
                                ),
                              ),
                            ),
                          ),
                        ),
                      ),
                    ),
                  ),
                ),
              ),
            ),
          ),
        ),
      ),
    ),
  ),
)

leaves :
    (f : CsrFile) (xs t : Trace)
    → All LeavesMstatus xs
    → csr_after (xs ++ t) f "mstatus" ≡ csr_after t f "mstatus"
leaves f [] t h = refl
leaves f (e ∷ xs) t h = h.0 (csr_after (xs ++ t) f) ∙ leaves f xs t h.1

All-behind : (xs ys : Trace) → All LeavesMstatus (xs ++ ys) → All LeavesMstatus ys
All-behind [] ys h = h
All-behind (x ∷ xs) ys h = All-behind xs ys h.1

-- The set-up, without the trace before it.
sets_up-LeavesMstatus :
    (p : Pic) (std_table nonstd_table unassigned : ℕ)
    → All LeavesMstatus (set_up p std_table nonstd_table unassigned [])
sets_up-LeavesMstatus p std_table nonstd_table unassigned =
    All-append LeavesMstatus closing (gateways_set p std_table nonstd_table unassigned [])
      closing-LeavesMstatus
      (All-append LeavesMstatus (loop_events (round_2 p) (22 + unassigned) 1)
        (middle ++ all_prioritised p std_table nonstd_table unassigned [])
        (loop_events-LeavesMstatus (round_2 p)
          (λ k. (
            (λ f. refl),
            ((λ f. refl), ((λ f. refl), ((λ f. refl), ((λ f. refl), ((λ f. refl), tt))))),
          ))
          (22 + unassigned) 1)
        (
          (λ f. refl),
          (
            (λ f. refl),
            All-append LeavesMstatus (loop_events (round_1 p) unassigned 23)
                (prioritised p std_table nonstd_table unassigned [])
                (loop_events-LeavesMstatus (round_1 p) (λ k. ((λ f. refl), ((λ f. refl), tt)))
                  unassigned 23)
                (All-append LeavesMstatus (priority_events p sources)
                  (opening p std_table nonstd_table) (priority_events-LeavesMstatus p sources)
                  ((λ f. refl), ((λ f. refl), ((λ f. refl), ((λ f. refl), ((λ f. refl), tt)))))),
          ),
        ))

set_up-append :
    (p : Pic) (std_table nonstd_table unassigned : ℕ) (t : Trace)
    → set_up p std_table nonstd_table unassigned t
      ≡ set_up p std_table nonstd_table unassigned [] ++ t
set_up-append p std_table nonstd_table unassigned t =
    let early = priority_events p sources ++ opening p std_table nonstd_table in
    let earlier = loop_events (round_1 p) unassigned 23 ++ early in
    cc (
      append_assoc (priority_events p sources) (opening p std_table nonstd_table) t,
      append_assoc (loop_events (round_1 p) unassigned 23) early t,
      append_assoc (loop_events (round_2 p) (22 + unassigned) 1) (middle ++ earlier) t,
    )

-- With at least 22 sources and fewer than 255, and 255 rounds or more for each loop,
-- `init_interrupts` returns. It clears the interrupt enable of mstatus, bit 3, first and sets it
-- last: whatever part of the events between has happened (`ys`, the newest first), the bit is 0 if
-- nothing else writes the registers.
pub init_interrupts_masked :
    (p : Pic) (std_table nonstd_table rounds : ℕ) (t : Trace) (f : CsrFile)
    → 22 ≤ p.total_int
    → p.total_int < 255
    → 255 ≤ rounds
    → (events : Trace) × (init_interrupts p std_table nonstd_table rounds t
        ≡ done tt (csrrs "mstatus" mstatus_mie ∷ (events ++ csrrc "mstatus" mstatus_mie ∷ t)))
      × ((xs ys : Trace)
          → events ≡ xs ++ ys
          → csr_after (ys ++ csrrc "mstatus" mstatus_mie ∷ t) f "mstatus" / 2 ^ 3 % 2 ≡ 0)
init_interrupts_masked p std_table nonstd_table rounds t f least small enough =
    let unassigned = p.total_int - 22 in
    let before = csrrc "mstatus" mstatus_mie ∷ t in
    (
      set_up p std_table nonstd_table unassigned [],
      init_interrupts-set_up p unassigned (omega arith) small std_table nonstd_table rounds t enough
          ∙ ap (λ l. done tt (csrrs "mstatus" mstatus_mie ∷ l))
              (set_up-append p std_table nonstd_table unassigned before),
      λ xs ys e.
          ap (λ m. m / 2 ^ 3 % 2)
            (leaves f ys before (
              All-behind xs ys (
                subst (All LeavesMstatus) e
                  (sets_up-LeavesMstatus p std_table nonstd_table unassigned))))
          ∙ bit_and_clear (csr_after t f "mstatus") 0xFFFFFFF7 3 refl,
    )
