-- ===== src/Build/Layer3.antt =====
-- parse_packet on the IP headers of ip_packet.c, up to the layer 4 header behind them.
use tcp_fuzz.Prelude.{
  ℕ, ◌+◌, ◌-◌, ◌/◌, ◌^◌, ◌≤◌, ◌<◌, ◌≡◌, true, arith, be16, List, [], ◌∷◌, length,
}
use tcp_fuzz.Packet.{Packet, HeaderType, packet_new, packet_append_header}
use tcp_fuzz.Packet.Layout.{header_at}
use tcp_fuzz.Parser.Outcome.{load8, load16, assert, and_then}
use tcp_fuzz.Parser.Layer4.{append_or_bad}
use tcp_fuzz.Parser.Layer3.{
  Nested, Parse, parse_layer4, parse_layer3_packet, parse_layer3_packet_by_proto, parse_ipv4,
  finish_ipv4, parse_ipv6, finish_ipv6,
}
use tcp_fuzz.Parser.Entry.{PacketLayer, parse_nested, parse_packet}
use tcp_fuzz.Build.{zeros}

-- The bytes of an IPv4 header without options, and what the parser has read behind it.
abbrev pub ipv4_bytes : ℕ → ℕ → ℕ → ℕ → ℕ → List ℕ → List ℕ
ipv4_bytes tos hi lo ttl protocol rest =
    0x45 ∷ tos ∷ hi ∷ lo ∷ 0 ∷ 0 ∷ 0 ∷ 0 ∷ ttl ∷ protocol ∷ 0 ∷ 0 ∷ 0 ∷ 0 ∷ 0 ∷ 0 ∷ 0 ∷ 0 ∷ 0 ∷ 0
    ∷ rest

abbrev pub behind_ip : HeaderType → ℕ → ℕ → List ℕ → Packet
behind_ip type header_bytes total bytes = record (packet_new bytes) {
  ip_bytes = header_bytes;
  headers = header_at type header_bytes total 0 ∷ [];
}

module _ (nested : Nested → Parse) where
  pub parse_ipv4-layer4 :
      (tos hi lo ttl protocol : ℕ) (rest : List ℕ)
      → let bytes = ipv4_bytes tos hi lo ttl protocol rest in
        20 ≤ be16 hi lo
        → be16 hi lo ≤ length bytes
        → length bytes < 2 ^ 30
        → parse_ipv4 nested (packet_new bytes) 0 (length bytes)
          ≡ and_then
              (parse_layer4 nested
                (parse_layer3_packet_by_proto nested)
                (behind_ip HeaderType.ipv4 20 (be16 hi lo) bytes)
                20
                protocol
                (be16 hi lo - 20)
                (length bytes))
              (finish_ipv4 true (be16 hi lo) 0)
  unfolding parse_ipv4 load8 load16 append_or_bad packet_append_header assert
  parse_ipv4-layer4 tos hi lo ttl protocol rest low whole small = ground arith

-- The same of an IPv6 header; the first byte has the version in its upper half.
abbrev pub ipv6_bytes : ℕ → ℕ → ℕ → ℕ → ℕ → ℕ → ℕ → ℕ → List ℕ → List ℕ
ipv6_bytes first second f₁ f₂ hi lo protocol hop_limit rest =
    first ∷ second ∷ f₁ ∷ f₂ ∷ hi ∷ lo ∷ protocol ∷ hop_limit ∷ zeros (zeros (zeros (zeros rest)))

module _ (nested : Nested → Parse) where
  pub parse_ipv6-layer4 :
      (first second f₁ f₂ hi lo protocol hop_limit : ℕ) (rest : List ℕ)
      → let bytes = ipv6_bytes first second f₁ f₂ hi lo protocol hop_limit rest in
        40 + be16 hi lo ≤ length bytes
        → length bytes < 2 ^ 30
        → parse_ipv6 nested (packet_new bytes) 0 (length bytes)
          ≡ and_then
              (parse_layer4 nested
                (parse_layer3_packet_by_proto nested)
                (behind_ip HeaderType.ipv6 40 (40 + be16 hi lo) bytes)
                40
                protocol
                (40 + be16 hi lo - 40)
                (length bytes))
              (finish_ipv6 true (40 + be16 hi lo) 0)
  unfolding parse_ipv6 load8 load16 append_or_bad packet_append_header assert
  parse_ipv6-layer4 first second f₁ f₂ hi lo protocol hop_limit rest whole small = ground arith

pub parse_packet-ipv4 :
    (tos hi lo ttl protocol : ℕ) (rest : List ℕ)
    → let bytes = ipv4_bytes tos hi lo ttl protocol rest in
      parse_packet (packet_new bytes) (length bytes) PacketLayer.layer_3_ip
      ≡ parse_ipv4 (parse_nested 6) (packet_new bytes) 0 (length bytes)
unfolding parse_packet parse_layer3_packet parse_nested load8 assert
parse_packet-ipv4 tos hi lo ttl protocol rest = ground arith

pub parse_packet-ipv6 :
    (first second f₁ f₂ hi lo protocol hop_limit : ℕ) (rest : List ℕ)
    → first / 16 ≡ 6
    → let bytes = ipv6_bytes first second f₁ f₂ hi lo protocol hop_limit rest in
      parse_packet (packet_new bytes) (length bytes) PacketLayer.layer_3_ip
      ≡ parse_ipv6 (parse_nested 6) (packet_new bytes) 0 (length bytes)
unfolding parse_packet parse_layer3_packet parse_nested load8 assert
parse_packet-ipv6 first second f₁ f₂ hi lo protocol hop_limit rest six = ground arith
