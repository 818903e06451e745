-- ===== src/Tests/Parse.antt =====
-- Tests of the parser, the checksums, and their theorems on a small packet.
use tcp_fuzz.Prelude.{ℕ, ◌≡◌, refl, arith, List, [], ◌∷◌, some}
use tcp_fuzz.Packet.{Packet, HeaderType, packet_new, packet_append_header}
use tcp_fuzz.Packet.Layout.{header_at, IsLaidOut}
use tcp_fuzz.Packet.Copy.{packet_start, packet_end, packet_copy_with_headroom, IsCopy}
use tcp_fuzz.Packet.Copy.{packet_copy_with_headroom-IsCopy}
use tcp_fuzz.Parser.Outcome.{ParseError, ret, packet_ok, packet_bad}
use tcp_fuzz.Parser.Outcome.{load8, load16, assert, and_then}
use tcp_fuzz.Parser.Layer4.{append_or_bad, parse_udp}
use tcp_fuzz.Parser.Layer3.{parse_ipv4, parse_layer3_packet, parse_layer4, finish_ipv4}
use tcp_fuzz.Parser.Entry.{PacketLayer, parse_nested, parse_packet}
use tcp_fuzz.Parser.Safety.Rules.{Returns}
use tcp_fuzz.Parser.Safety.Steps.Layer3.{HasLayer3}
use tcp_fuzz.Parser.Safety.Steps.Layer4.{HasLayer4}
use tcp_fuzz.Parser.Safety.Whole.{parse_packet-IsLaidOut, parse_packet_ok-layers}
use tcp_fuzz.Parser.Overrun.{HeaderBytes}
use tcp_fuzz.Parser.Outcome.{packet_bad}
use tcp_fuzz.Checksum.Sum.{ipv4_checksum, ip_checksum_partial, ip_checksum_fold, fold_loop}
use tcp_fuzz.Checksum.Fold.{ipv4_checksum_verifies}

-- A UDP datagram of 8 bytes in an IPv4 packet, and a byte of room.
abbrev udp_bytes : List ℕ
udp_bytes =
    0x45 ∷ 0 ∷ 0 ∷ 28 ∷ 0 ∷ 0 ∷ 0 ∷ 0 ∷ 0xff ∷ 17 ∷ 0 ∷ 0 ∷ 192 ∷ 0 ∷ 2 ∷ 1 ∷ 192 ∷ 168 ∷ 0 ∷ 1 ∷ 0
    ∷ 1 ∷ 0 ∷ 2 ∷ 0 ∷ 8 ∷ 0 ∷ 0 ∷ 0 ∷ []

abbrev udp_packet : Packet
udp_packet = record (packet_new udp_bytes) {
  ip_bytes = 28;
  headers = header_at HeaderType.ipv4 20 28 0 ∷ header_at HeaderType.udp 8 8 20 ∷ [];
  ipv4 = some 0;
  udp = some 20;
}

parse-udp : parse_packet (packet_new udp_bytes) 28 PacketLayer.layer_3_ip ≡ ret packet_ok udp_packet
unfolding parse_packet parse_layer3_packet parse_nested parse_ipv4 parse_layer4 parse_udp
    finish_ipv4 load8 load16 assert and_then append_or_bad packet_append_header
parse-udp = refl

parse-short :
    parse_packet (packet_new udp_bytes) 19 PacketLayer.layer_3_ip
    ≡ ret (packet_bad ParseError.ip_header_overflows_packet) (packet_new udp_bytes)
unfolding parse_packet parse_layer3_packet assert
parse-short = refl

parse_packet-IsLaidOut_example :
    Returns
      (λ r packet. IsLaidOut 28 packet × (packet.buffer ≡ udp_bytes))
      (parse_packet (packet_new udp_bytes) 28 PacketLayer.layer_3_ip)
parse_packet-IsLaidOut_example =
    parse_packet-IsLaidOut udp_bytes 28 (omega arith) (omega arith) PacketLayer.layer_3_ip

parse_packet_ok-layers_example : HasLayer3 udp_packet × HasLayer4 udp_packet
parse_packet_ok-layers_example =
    parse_packet_ok-layers udp_bytes 28 (omega arith) (omega arith) PacketLayer.layer_3_ip parse-udp

abbrev header_bytes : HeaderBytes
header_bytes = record {
  tos = 0;
  id = (7, 8);
  ttl = 64;
  check = (0, 0);
  src = ((10, 0), (0, 1));
  dst = ((10, 0), (0, 2));
}

checksum_of_words : ipv4_checksum (0x45 ∷ 0 ∷ 0 ∷ 40 ∷ []) ≡ 0xd7ba
unfolding ipv4_checksum ip_checksum_partial ip_checksum_fold fold_loop
checksum_of_words = refl

ipv4_checksum_verifies_example : ipv4_checksum (0x45 ∷ 0 ∷ 0xba ∷ 0xff ∷ []) ≡ 0
unfolding ipv4_checksum ip_checksum_partial ip_checksum_fold fold_loop
ipv4_checksum_verifies_example =
    ipv4_checksum_verifies (0x45 ∷ 0 ∷ []) [] (omega arith, (omega arith, tt)) tt refl (omega arith)

packet_copy_with_headroom-IsCopy_example :
    (packet : Packet) × (packet_copy_with_headroom udp_packet 4 ≡ some packet)
    × IsCopy udp_packet 4 28 packet
unfolding packet_end packet_start
packet_copy_with_headroom-IsCopy_example =
    packet_copy_with_headroom-IsCopy udp_packet 4 28 refl (omega arith) (omega arith)
      (refl, (refl, tt))
