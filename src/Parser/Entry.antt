-- ===== src/Parser/Entry.antt =====
-- The recursion between the layer 3 functions of packet_parser.c, and parse_packet.
use tcp_fuzz.Prelude.{ℕ, zero, suc, ◌+◌, leb, ltb, if◌then◌else◌}
use tcp_fuzz.Packet.{Packet}
use tcp_fuzz.Parser.Outcome.{ParseError, Outcome, out_of_fuel, load16, bad, assert}
use tcp_fuzz.Parser.Layer3.{Nested, Parse, parse_layer3_packet_by_proto, parse_layer3_packet}
use tcp_fuzz.Parser.Layer3.{parse_ipv4, parse_ipv6, parse_mpls}

-- The header of the given kind, with a bound on how many headers may be nested.
unfoldable pub parse_nested : ℕ → Nested → Parse
parse_nested zero kind packet p packet_end = out_of_fuel
parse_nested (suc depth) Nested.ipv4 packet p packet_end =
    parse_ipv4 (parse_nested depth) packet p packet_end
parse_nested (suc depth) Nested.ipv6 packet p packet_end =
    parse_ipv6 (parse_nested depth) packet p packet_end
parse_nested (suc depth) Nested.mpls packet p packet_end =
    parse_mpls (parse_nested depth) packet p packet_end

-- Every function that recurs has appended a header, and a packet has at most six.
abbrev pub max_depth : ℕ
max_depth = 7

-- `enum packet_layer_t`
pub data PacketLayer : Type 0 where
  layer_3_ip layer_2_ethernet : PacketLayer

-- The Ethernet header takes 14 bytes, the last two of which are the type.
unfoldable pub parse_layer2_packet : (Nested → Parse) → Parse
parse_layer2_packet nested packet header_start packet_end =
    if ltb packet_end (header_start + 14)
    then bad ParseError.ethernet_header_overflows_packet packet
    else let packet' = record packet { l2_header_bytes = 14 } in
      load16 packet' (header_start + 12) λ ether_type.
        parse_layer3_packet_by_proto nested packet' ether_type (header_start + 14) packet_end

-- The hex dump that parse_packet adds to a message is left out.
unfoldable pub parse_packet : Packet → ℕ → PacketLayer → Outcome
parse_packet packet in_bytes PacketLayer.layer_2_ethernet =
    assert (leb in_bytes packet.buffer_bytes)
      (parse_layer2_packet (parse_nested max_depth) packet 0 in_bytes)
parse_packet packet in_bytes PacketLayer.layer_3_ip =
    assert (leb in_bytes packet.buffer_bytes)
      (parse_layer3_packet (parse_nested max_depth) packet 0 in_bytes)
