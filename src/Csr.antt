-- ===== src/Csr.antt =====
-- src/integration/test_suites/libs/caliptra_isr/riscv-csr.h: for each control and status register a
-- family of accessors with the register's name in the instruction, and the macros of its fields.
-- The firmware is built for RV32: `__riscv_xlen` is 32, and so is the width of `1UL`.
pub mod Block
pub mod Blocks
pub mod Fields
pub mod Access
pub mod Mdeau
