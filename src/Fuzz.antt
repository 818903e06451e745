-- ===== src/Fuzz.antt =====
-- The fuzzer's own files, fuzz_test_*.c: the input, the packets made of it, and the records of a run.
pub mod Input
pub mod Script
pub mod Compare
pub mod Generate
