-- ===== src/Parser.antt =====
-- packet_parser.c: the parser that finds the headers of a packet and fills in the packet's fields.
-- `Outcome` holds what a parse comes to, `Layer4` and `Layer3` the functions of the file, from the
-- inside out, `Entry` the recursion between them and `parse_packet`. The proofs are in `Safety`.
pub mod Outcome
pub mod Layer4
pub mod Layer3
pub mod Entry
pub mod Safety
pub mod Overrun
