-- ===== src/Isr/Init/Stores.antt =====
-- What a trace has stored last at an address, and what the loops of `init_interrupts` have.
use caliptra_ss.Base.{
  ℕ, zero, suc, ◌+◌, ◌*◌, ◌≡◌, ◌<◌, ◌≤◌, ◌≢◌, refl, arith, ◌∙◌, ap, List, [], ◌∷◌, ◌++◌,
  append_assoc, ◌==◌, true, Bool-cases, inl, inr, if◌then◌else◌, Option, some, none,
}
use caliptra_ss.Firmware.{Event, Trace, store, fence}
use caliptra_ss.Isr.Pic.{Pic, veer_mm_pic_meipls}
use caliptra_ss.Isr.Sources.{Source, veer_intr_vec, veer_intr_prio}
use caliptra_ss.Isr.Init.Loops.{loop_events, priority_events}

abbrev stored_by : ℕ → Event → Option ℕ → Option ℕ
stored_by a (store b v) o = if a == b then some v else o
stored_by a _ o = o

abbrev pub stored : ℕ → Trace → Option ℕ
stored a [] = none
stored a (e ∷ t) = stored_by a e (stored a t)

same : (m n : ℕ) → (m == n) ≡ true → m ≡ n
same m n e = ground arith

same_word : (base m n : ℕ) → (base + m * 4 == base + n * 4) ≡ (m == n)
same_word base m n = ground arith

-- An address that no round stores at keeps its value.
pub loop_events-skip :
    (round : ℕ → Trace) (a count vec : ℕ) (t : Trace)
    → ((k : ℕ) → vec ≤ k → k < vec + count → (t : Trace) → stored a (round k ++ t) ≡ stored a t)
    → stored a (loop_events round count vec ++ t) ≡ stored a t
unfolding loop_events
loop_events-skip round a zero vec t skip = refl
loop_events-skip round a (suc count) vec t skip =
    ap (λ l. stored a l) (append_assoc (loop_events round count (vec + 1)) (round vec) t)
    ∙ loop_events-skip round a count (vec + 1) (round vec ++ t)
        (λ k l h. skip k (omega arith) (omega arith))
    ∙ skip vec (omega arith) (omega arith) t

-- One that only the round of `i` stores at has that round's.
pub loop_events-hit :
    (round : ℕ → Trace) (a count vec : ℕ) (t : Trace) (i v : ℕ)
    → vec ≤ i
    → i < vec + count
    → ((t : Trace) → stored a (round i ++ t) ≡ some v)
    → ((k : ℕ)
        → vec ≤ k
        → k < vec + count
        → k ≢ i
        → (t : Trace) → stored a (round k ++ t) ≡ stored a t)
    → stored a (loop_events round count vec ++ t) ≡ some v
unfolding loop_events
loop_events-hit round a zero vec t i v l h hit skip = ground arith
loop_events-hit round a (suc count) vec t i v l h hit skip =
    ap (λ l. stored a l) (append_assoc (loop_events round count (vec + 1)) (round vec) t)
    ∙ elim (Bool-cases (vec == i)) [
      | inl e ↦
          loop_events-skip round a count (vec + 1) (round vec ++ t)
            (λ k l h. skip k (omega arith) (omega arith) (ground arith))
          ∙ ap (λ j. stored a (round j ++ t)) (same vec i e)
          ∙ hit t
      | inr n ↦
          loop_events-hit round a count (vec + 1) (round vec ++ t) i v (ground arith) (omega arith)
            hit (λ k l h. skip k (omega arith) (omega arith))
    ]

-- The last priority that the list gives to the vector `k`.
abbrev pub priority_of : ℕ → List Source → Option ℕ → Option ℕ
priority_of k [] o = o
priority_of k (s ∷ ss) o =
    priority_of k ss (if k == veer_intr_vec s then some (veer_intr_prio s) else o)

pub priority_events_lem :
    (p : Pic) (k : ℕ) (ss : List Source) (t : Trace)
    → stored (veer_mm_pic_meipls p + k * 4) (priority_events p ss ++ t)
      ≡ priority_of k ss (stored (veer_mm_pic_meipls p + k * 4) t)
unfolding priority_events
priority_events_lem p k [] t = refl
priority_events_lem p k (s ∷ ss) t =
    let o = stored (veer_mm_pic_meipls p + k * 4) t in
    ap (λ l. stored (veer_mm_pic_meipls p + k * 4) l)
      (append_assoc (priority_events p ss)
        (fence ∷ store (veer_mm_pic_meipls p + veer_intr_vec s * 4) (veer_intr_prio s) ∷ []) t)
    ∙ priority_events_lem p k ss
        (fence ∷ store (veer_mm_pic_meipls p + veer_intr_vec s * 4) (veer_intr_prio s) ∷ t)
    ∙ ap (λ b. priority_of k ss (if b then some (veer_intr_prio s) else o))
        (same_word (veer_mm_pic_meipls p) k (veer_intr_vec s))
