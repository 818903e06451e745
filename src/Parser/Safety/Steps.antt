-- ===== src/Parser/Safety/Steps.antt =====
-- Lemmas for each function of packet_parser.c, given what the functions for nested headers do.
pub mod Layer4
pub mod Layer3
pub mod Nested
