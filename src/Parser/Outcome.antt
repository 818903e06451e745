-- ===== src/Parser/Outcome.antt =====
-- packet_parser.h and the reads of packet_parser.c: results, error messages, checked loads.
use tcp_fuzz.Prelude.{ℕ, ◌+◌, none, some, Bool, true, false, get_elem?, be16}
use tcp_fuzz.Packet.{Packet}

-- What `asprintf` writes to `*error`, one constructor for each message.
pub data ParseError : Type 0 where
  ethernet_header_overflows_packet : ParseError
  ipv4_header_overflows_packet : ParseError
  ipv6_header_overflows_packet : ParseError
  ip_header_overflows_packet : ParseError
  bad_ip_version_for_ethertype_ip : ParseError
  bad_ip_version_for_ethertype_ipv6 : ParseError
  unsupported_ip_version : ParseError
  ip_header_too_short : ParseError
  full_ip_header_overflows_packet : ParseError
  ip_payload_overflows_packet : ParseError
  ip_header_bigger_than_datagram : ParseError
  more_fragments_remaining : ParseError
  nonzero_fragment_offset : ParseError
  ipv6_payload_overflows_packet : ParseError
  too_many_nested_headers : ParseError
  truncated_tcp_header : ParseError
  tcp_data_offset_too_small : ParseError
  tcp_data_offset_too_big : ParseError
  truncated_udp_header : ParseError
  udp_length_too_small_for_header : ParseError
  udp_length_too_small : ParseError
  udp_length_too_big : ParseError
  truncated_icmp_header : ParseError
  truncated_gre_header : ParseError
  gre_unsupported_version : ParseError
  gre_unsupported_routing : ParseError
  gre_length_too_small : ParseError
  gre_length_too_big : ParseError
  mpls_entry_overflows_packet : ParseError

-- `enum packet_parse_result_t`; PACKET_BAD carries the message.
pub data ParseResult : Type 0 where
  packet_ok : ParseResult
  packet_bad : ParseError → ParseResult
  packet_unknown_l4 : ParseResult

-- The parser returns, or it reads outside the buffer or fails an `assert`, or (in the model only)
-- the fuel for nested headers runs out.
pub data Outcome : Type 0 where
  ret : ParseResult → Packet → Outcome
  fault : Outcome
  out_of_fuel : Outcome

-- Read a byte, and a big-endian field of two bytes, at an offset of the buffer.
unfoldable pub load8 : Packet → ℕ → (ℕ → Outcome) → Outcome
load8 packet i rest = elim (get_elem? packet.buffer i) [ none ↦ fault | some b ↦ rest b ]

unfoldable pub load16 : Packet → ℕ → (ℕ → Outcome) → Outcome
unfolding load8
load16 packet i rest = load8 packet i λ hi. load8 packet (i + 1) λ lo. rest (be16 hi lo)

-- `assert(test); rest`
unfoldable pub assert : Bool → Outcome → Outcome
assert true rest = rest
assert false rest = fault

abbrev pub bad : ParseError → Packet → Outcome
bad e packet = ret (packet_bad e) packet

-- What a caller does to the packet after a call, whatever the call returned.
unfoldable pub and_then : Outcome → (Packet → Packet) → Outcome
and_then (ret r packet) f = ret r (f packet)
and_then fault f = fault
and_then out_of_fuel f = out_of_fuel
