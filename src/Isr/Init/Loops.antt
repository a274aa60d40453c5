-- ===== src/Isr/Init/Loops.antt =====
-- What the loops of `init_interrupts` do.
use caliptra_ss.Base.{
  ℕ, zero, suc, ◌+◌, ◌*◌, ◌%◌, ◌^◌, ◌≡◌, ◌<◌, refl, arith, ap, List, [], ◌∷◌, ◌++◌, append_assoc,
  leb, Bool, Bool-cases, inl, inr,
}
use caliptra_ss.Firmware.{and_then, Trace, Fw, done, branch, pure, ◌>>◌, fence, store}
use caliptra_ss.Isr.Pic.{Pic, veer_mm_pic_meipls}
use caliptra_ss.Isr.Sources.{Source, veer_intr_vec, veer_intr_prio}
use caliptra_ss.Isr.Init.{set_priorities, for_vec}

-- The events of `count` rounds from `vec` on, where a round adds `round vec`.
unfoldable pub loop_events : (ℕ → Trace) → ℕ → ℕ → Trace
loop_events round zero vec = []
loop_events round (suc count) vec = loop_events round count (vec + 1) ++ round vec

module _ (body : ℕ → Fw (Unit {0})) (round : ℕ → Trace)
    (body_lem : (vec : ℕ) (t : Trace) → body vec t ≡ done tt (round vec ++ t)) (total : ℕ)
    (small : total < 255) where
  -- With fewer than 255 sources the counter does not wrap.
  pub for_vec_lem :
      (count rounds vec : ℕ) (t : Trace)
      → vec + count ≡ total + 1
      → count < rounds
      → for_vec body total rounds vec t ≡ done tt (loop_events round count vec ++ t)
  unfolding for_vec loop_events
  for_vec_lem count zero vec t e h = ground arith
  for_vec_lem zero (suc rounds) vec t e h = elim (Bool-cases (leb vec total)) [
    | inl y ↦ ground arith
    | inr n ↦
        ap
          (λ (b : Bool).
            branch b (body vec >> for_vec body total rounds ((vec + 1) % 2 ^ 8)) (pure tt) t)
          n
  ]
  for_vec_lem (suc count) (suc rounds) vec t e h = elim (Bool-cases (leb vec total)) [
    | inl y ↦ cc (
      ap
          (λ (b : Bool).
            branch b (body vec >> for_vec body total rounds ((vec + 1) % 2 ^ 8)) (pure tt) t)
          y,
      and_then (body vec) (for_vec body total rounds ((vec + 1) % 2 ^ 8)) t (round vec ++ t)
          (body_lem vec t) refl,
      ap (λ v. for_vec body total rounds v (round vec ++ t)) next,
      for_vec_lem count rounds (vec + 1) (round vec ++ t) (omega arith) (omega arith),
      append_assoc (loop_events round count (vec + 1)) (round vec) t,
    )
    | inr n ↦ ground arith
  ]
    where
      next : (vec + 1) % 2 ^ 8 ≡ vec + 1
      next = omega arith

-- The events of the assignments of the priorities.
unfoldable pub priority_events : Pic → List Source → Trace
priority_events p [] = []
priority_events p (s ∷ ss) =
    priority_events p ss
    ++ fence ∷ store (veer_mm_pic_meipls p + veer_intr_vec s * 4) (veer_intr_prio s) ∷ []

pub set_priorities_lem :
    (p : Pic) (ss : List Source) (t : Trace)
    → set_priorities p ss t ≡ done tt (priority_events p ss ++ t)
unfolding set_priorities priority_events
set_priorities_lem p [] t = refl
set_priorities_lem p (s ∷ ss) t = cc (
  set_priorities_lem p ss
      (fence ∷ store (veer_mm_pic_meipls p + veer_intr_vec s * 4) (veer_intr_prio s) ∷ t),
  append_assoc (priority_events p ss)
      (fence ∷ store (veer_mm_pic_meipls p + veer_intr_vec s * 4) (veer_intr_prio s) ∷ []) t,
)
