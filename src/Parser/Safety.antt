-- ===== src/Parser/Safety.antt =====
-- Proofs about packet_parser.c on every input. `Rules` holds the logic, `Steps` the lemmas for the
-- functions of each layer, `Whole` the theorems.
pub mod Rules
pub mod Steps
pub mod Whole
