-- ===== src/Isr.antt =====
-- src/integration/test_suites/libs/caliptra_isr/caliptra_isr.c: the interrupt handlers of the firmware, as
-- traces. The messages that VPRINTF prints at some verbosity are left out.
pub mod Interrupts
pub mod Service
pub mod Serviced
pub mod Handler
pub mod Context
pub mod Sources
pub mod Pic
pub mod Init
pub mod Exception
pub mod Faults
pub mod Fates
pub mod Tests
pub mod FaultTests
pub mod Dispatch
pub mod Dispatched
pub mod Traps
pub mod InitTests
