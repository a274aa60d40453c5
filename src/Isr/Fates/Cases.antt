-- ===== src/Isr/Fates/Cases.antt =====
-- What becomes of the program on an exception, for every cause and detail.
use caliptra_ss.Base.{ℕ, ◌∷◌, ◌==◌}
use caliptra_ss.Firmware.{Hw, Trace, Fw, csrr, store, put_stdout, fence_i, branch}
use caliptra_ss.Isr.Exception.{
  ExcFlag, load_access_fault, store_access_fault, instruction_access_fault, kill,
}

-- The events up to the store of the detail, and up to the `switch`.
marks : ExcFlag → ℕ → Trace → Trace
marks exc_flag cause t =
    store exc_flag.mcause cause
    ∷ store exc_flag.exception_hit 1
    ∷ fence_i
    ∷ put_stdout 0xe4
    ∷ csrr "mscause"
    ∷ csrr "mcause"
    ∷ put_stdout 0xfb
    ∷ t

entry : ExcFlag → ℕ → ℕ → Trace → Trace
entry exc_flag cause detail t =
    csrr "mtval" ∷ csrr "mepc" ∷ store exc_flag.mscause detail ∷ marks exc_flag cause t

-- The `switch`.
switch : Hw → ExcFlag → ℕ → Fw (Unit {0})
switch hw exc_flag cause = branch (cause == 5) (load_access_fault hw exc_flag) (
    branch (cause == 7) (store_access_fault hw exc_flag)
      (branch (cause == 1) (instruction_access_fault hw exc_flag) kill))
