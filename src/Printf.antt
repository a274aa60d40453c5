-- ===== src/Printf.antt =====
-- src/integration/test_suites/libs/printf/printf.c: the firmware's formatted output, one byte at a time
-- to the address `stdout`. A function returns what it returns in C with the bytes that it writes.
pub mod Digits
pub mod Number
pub mod Format
pub mod Laws
pub mod Width
pub mod Pieces
pub mod Whole
pub mod Mcycle
pub mod Tests
