-- ===== src/Csr/Blocks.antt =====
-- The sections of riscv-csr.h, a definition for each register, under its name.
pub mod Part1
pub mod Part2
pub mod Part3
pub mod Part4
pub mod Part5
pub mod Part6
pub mod Part7
pub mod Part8
use Part1.{part1}
use Part2.{part2}
use Part3.{part3}
use Part4.{part4}
use Part5.{part5}
use Part6.{part6}
use Part7.{part7}
use Part8.{part8}
use caliptra_ss.Base.{List, ◌++◌}
use caliptra_ss.Csr.Block.{Block}

-- All registers, in the order of the file.
abbrev pub all_blocks : List Block
all_blocks = part1 ++ part2 ++ part3 ++ part4 ++ part5 ++ part6 ++ part7 ++ part8
