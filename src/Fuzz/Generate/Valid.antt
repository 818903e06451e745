-- ===== src/Fuzz/Generate/Valid.antt =====
-- parse_packet on the bytes of fuzz_to_packet.
use tcp_fuzz.Prelude.{ℕ, ◌+◌, ◌-◌, ◌*◌, ◌/◌, ◌^◌, ◌≤◌, ◌<◌, ◌≡◌, arith, be16}
use tcp_fuzz.Prelude.{List, [], ◌∷◌, length, none, some}
use tcp_fuzz.Packet.{Packet, HeaderType, packet_new, packet_append_header}
use tcp_fuzz.Packet.Layout.{header_at}
use tcp_fuzz.Parser.Outcome.{Outcome, ret, packet_ok, load8, load16, assert, and_then}
use tcp_fuzz.Parser.Layer4.{append_or_bad, parse_tcp}
use tcp_fuzz.Parser.Layer3.{Nested, parse_layer4, parse_layer3_packet, parse_ipv4, finish_ipv4}
use tcp_fuzz.Parser.Entry.{PacketLayer, parse_nested, parse_packet}
use tcp_fuzz.Fuzz.Generate.Shape.{Choices, packet_bytes}

-- What the parser makes of the bytes, for the total length and that of the TCP header.
abbrev pub parsed : List ℕ → ℕ → ℕ → Packet
parsed bytes total tcp_length = record (packet_new bytes) {
  ip_bytes = total;
  headers =
      header_at HeaderType.ipv4 20 total 0
      ∷ header_at HeaderType.tcp tcp_length (total - 20) 20
      ∷ [];
  ipv4 = some 0;
  tcp = some 20;
}

module _ (c : Choices) (hi lo off : ℕ) (tail : List ℕ) where
  abbrev bytes : List ℕ
  bytes = packet_bytes c hi lo off tail

  abbrev total : ℕ
  total = be16 hi lo

  abbrev with_ip : Packet
  with_ip = record (packet_new bytes) {
    ip_bytes = 20;
    headers = header_at HeaderType.ipv4 20 total 0 ∷ [];
  }

  parse_tcp-parsed :
      20 ≤ off / 16 * 4
      → off / 16 * 4 + 20 ≤ total
      → total ≤ length bytes
      → length bytes < 2 ^ 30
      → parse_tcp with_ip 20 (total - 20) (length bytes)
        ≡ ret packet_ok (record (parsed bytes total (off / 16 * 4)) {
          ip_bytes = 20 + off / 16 * 4;
          ipv4 = none;
        })
  unfolding parse_tcp load8 append_or_bad packet_append_header assert
  parse_tcp-parsed wide fits whole small = ground arith

  parse_ipv4-parsed :
      (nested : Nested → Packet → ℕ → ℕ → Outcome)
      → 20 ≤ off / 16 * 4
      → off / 16 * 4 + 20 ≤ total
      → total ≤ length bytes
      → length bytes < 2 ^ 30
      → parse_ipv4 nested (packet_new bytes) 0 (length bytes)
        ≡ ret packet_ok (parsed bytes total (off / 16 * 4))
  unfolding parse_ipv4 load8 load16 append_or_bad packet_append_header assert parse_layer4
      finish_ipv4 and_then
  parse_ipv4-parsed nested wide fits whole small =
      ground (arith, parse_tcp-parsed wide fits whole small)

  pub parse_packet-parsed :
      20 ≤ off / 16 * 4
      → off / 16 * 4 + 20 ≤ total
      → total ≤ length bytes
      → length bytes < 2 ^ 30
      → parse_packet (packet_new bytes) (length bytes) PacketLayer.layer_3_ip
        ≡ ret packet_ok (parsed bytes total (off / 16 * 4))
  unfolding parse_packet parse_layer3_packet parse_nested load8 assert
  parse_packet-parsed wide fits whole small =
      ground (arith, parse_ipv4-parsed (parse_nested 6) wide fits whole small)
