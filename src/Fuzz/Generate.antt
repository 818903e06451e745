-- ===== src/Fuzz/Generate.antt =====
-- fuzz_to_packet of fuzz_test_packet.c: an inbound TCP packet made of fuzz input. `Options` holds
-- the loop over TCP options, `Build` the whole function; `Shape`, `Valid` and `Total` hold proofs about
-- its bytes, the parser on them, and the whole.
pub mod State
pub mod Options
pub mod Build
pub mod Shape
pub mod Valid
pub mod Total
