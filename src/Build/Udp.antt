-- ===== src/Build/Udp.antt =====
-- new_udp_packet, and the parser on what it builds.
use tcp_fuzz.Prelude.{
  ℕ, ◌+◌, ◌-◌, ◌*◌, ◌/◌, ◌%◌, ◌^◌, ◌≤◌, ◌<◌, ◌≡◌, refl, ap, ◌∙◌, true, false, arith, be16,
}
use tcp_fuzz.Prelude.{List, ◌∷◌, length, replicate, length-replicate, some, le→ltb, ltb}
use tcp_fuzz.Packet.{Direction, Packet, HeaderType, packet_new}
use tcp_fuzz.Parser.Outcome.{ret, packet_ok, and_then}
use tcp_fuzz.Parser.Layer3.{finish_ipv4, finish_ipv6}
use tcp_fuzz.Parser.Entry.{PacketLayer, parse_nested, parse_packet}
use tcp_fuzz.Build.{
  Family, IpInfo, Built, ip_header_min_len, set_ipv4_header, set_ipv6_header, set_packet_ip_header,
  append_layer4, udp_bytes, new_udp_packet, built, ttl_or_none,
}
use tcp_fuzz.Build.Layer3.{
  parse_ipv4-layer4, parse_ipv6-layer4, parse_packet-ipv4, parse_packet-ipv6,
}
use tcp_fuzz.Build.Layer4.{parse_udp-ipv4, parse_udp-ipv6}
use tcp_fuzz.Build.Frames.{framed, with_ip4, append4_lem, with_ip6, append6_lem, bind_two, be16_lem}

abbrev built_udp : IpInfo → Packet → Built
built_udp ip_info packet = record {
  packet = packet;
  win_nocheck = false;
  options_nocheck = false;
  tos_chk = ip_info.tos_check;
}

length-udp_bytes :
    (src_port dst_port payload : ℕ) → length (udp_bytes src_port dst_port payload) ≡ 8 + payload
unfolding udp_bytes
length-udp_bytes src_port dst_port payload = omega (arith, length-replicate {A = ℕ} payload 0)

abbrev udp4 : IpInfo → ℕ → ℕ → ℕ → Direction → Packet
udp4 ip_info payload src_port dst_port direction =
    let bytes =
      set_ipv4_header (20 + 8 + payload) ip_info.tos_value ip_info.ttl 17
        (udp_bytes src_port dst_port payload) in
    record (framed bytes HeaderType.ipv4 20 (20 + 8 + payload) HeaderType.udp 8 (8 + payload)
      direction) { ipv4 = some 0; udp = some 20 }

new_udp4 :
    (direction : Direction) (ip_info : IpInfo) (payload src_port dst_port : ℕ)
    → 20 + 8 + payload < 2 ^ 16
    → new_udp_packet Family.inet direction ip_info payload src_port dst_port
      ≡ some (built (built_udp ip_info (udp4 ip_info payload src_port dst_port direction)))
unfolding new_udp_packet set_packet_ip_header set_ipv4_header
new_udp4 direction ip_info payload src_port dst_port small =
    let total = 20 + 8 + payload in
    let bytes =
      set_ipv4_header (20 + 8 + payload) ip_info.tos_value ip_info.ttl 17
        (udp_bytes src_port dst_port payload) in
    let sized : length bytes ≡ total = omega (arith, length-udp_bytes src_port dst_port payload) in
    let large : ltb (64 * 1024) total ≡ false = le→ltb _ _ (omega arith) in
    let appended =
      append4_lem bytes HeaderType.udp 8 payload total direction sized refl (omega arith) in
    rw (large) (
      bind_two
        (set_packet_ip_header Family.inet total ip_info 17 (udp_bytes src_port dst_port payload))
        (append_layer4 20 HeaderType.udp 8 payload total direction)
        (λ packet. built (built_udp ip_info (record packet { udp = some 20 }))) _ _
        (with_ip4 bytes (omega arith)) appended)

parse_udp4 :
    (ip_info : IpInfo) (payload src_port dst_port : ℕ)
    → 20 + 8 + payload < 2 ^ 16
    → let packet = udp4 ip_info payload src_port dst_port Direction.invalid in
      parse_packet (packet_new packet.buffer) (length packet.buffer) PacketLayer.layer_3_ip
      ≡ ret packet_ok packet
unfolding set_ipv4_header udp_bytes and_then finish_ipv4
parse_udp4 ip_info payload src_port dst_port small =
    let total = 20 + 8 + payload in
    let l4 = 8 + payload in
    let bytes =
      set_ipv4_header (20 + 8 + payload) ip_info.tos_value ip_info.ttl 17
        (udp_bytes src_port dst_port payload) in
    let sized : length bytes ≡ total = omega (arith, length-udp_bytes src_port dst_port payload) in
    let len = be16_lem l4 (omega arith) in
    let rest : List ℕ = 0 ∷ 0 ∷ replicate payload 0 in
    let ttl = ttl_or_none ip_info.ttl in
    let field = be16_lem total small in
    let hi = total / 256 % 256 in
    let lo = total % 256 in
    let whole : be16 hi lo ≤ length bytes = rw (field, sized) (omega arith) in
    let layer4 =
      parse_udp-ipv4 (parse_nested 6) ip_info.tos_value hi lo ttl (src_port / 256 % 256)
        (src_port % 256) (dst_port / 256 % 256) (dst_port % 256) (l4 / 256 % 256) (l4 % 256) rest
        (rw (len) (omega arith)) (rw (len, field) (omega arith)) whole (rw (sized) (omega arith)) in
    let left : total - 20 ≡ l4 = omega arith in
    parse_packet-ipv4 ip_info.tos_value hi lo ttl 17 (udp_bytes src_port dst_port payload)
    ∙ (parse_ipv4-layer4 (parse_nested 6) ip_info.tos_value hi lo ttl 17
          (udp_bytes src_port dst_port payload) (rw (field) (omega arith)) whole
          (rw (sized) (omega arith))
        ∙ (ap (λ o. and_then o (finish_ipv4 true (be16 hi lo) 0)) layer4 ∙ (rw (field, left) refl)))

abbrev udp6 : IpInfo → ℕ → ℕ → ℕ → Direction → Packet
udp6 ip_info payload src_port dst_port direction =
    let bytes =
      set_ipv6_header (40 + 8 + payload) ip_info.tos_value ip_info.flow_label ip_info.ttl 17
        (udp_bytes src_port dst_port payload) in
    record (framed bytes HeaderType.ipv6 40 (40 + 8 + payload) HeaderType.udp 8 (8 + payload)
      direction) { ipv6 = some 0; udp = some 40 }

new_udp6 :
    (direction : Direction) (ip_info : IpInfo) (payload src_port dst_port : ℕ)
    → 40 + 8 + payload < 2 ^ 16
    → new_udp_packet Family.inet6 direction ip_info payload src_port dst_port
      ≡ some (built (built_udp ip_info (udp6 ip_info payload src_port dst_port direction)))
unfolding new_udp_packet set_packet_ip_header set_ipv6_header
new_udp6 direction ip_info payload src_port dst_port small =
    let total = 40 + 8 + payload in
    let bytes =
      set_ipv6_header (40 + 8 + payload) ip_info.tos_value ip_info.flow_label ip_info.ttl 17
        (udp_bytes src_port dst_port payload) in
    let sized : length bytes ≡ total = omega (arith, length-udp_bytes src_port dst_port payload) in
    let large : ltb (64 * 1024) total ≡ false = le→ltb _ _ (omega arith) in
    let appended =
      append6_lem bytes HeaderType.udp 8 payload total direction sized refl (omega arith) in
    rw (large) (
      bind_two
        (set_packet_ip_header Family.inet6 total ip_info 17 (udp_bytes src_port dst_port payload))
        (append_layer4 40 HeaderType.udp 8 payload total direction)
        (λ packet. built (built_udp ip_info (record packet { udp = some 40 }))) _ _
        (with_ip6 bytes (omega arith)) appended)

parse_udp6 :
    (ip_info : IpInfo) (payload src_port dst_port : ℕ)
    → 40 + 8 + payload < 2 ^ 16
    → let packet = udp6 ip_info payload src_port dst_port Direction.invalid in
      parse_packet (packet_new packet.buffer) (length packet.buffer) PacketLayer.layer_3_ip
      ≡ ret packet_ok packet
unfolding set_ipv6_header udp_bytes and_then finish_ipv6
parse_udp6 ip_info payload src_port dst_port small =
    let total = 40 + 8 + payload in
    let l4 = 8 + payload in
    let bytes =
      set_ipv6_header (40 + 8 + payload) ip_info.tos_value ip_info.flow_label ip_info.ttl 17
        (udp_bytes src_port dst_port payload) in
    let sized : length bytes ≡ total = omega (arith, length-udp_bytes src_port dst_port payload) in
    let len = be16_lem l4 (omega arith) in
    let rest : List ℕ = 0 ∷ 0 ∷ replicate payload 0 in
    let ttl = ttl_or_none ip_info.ttl in
    let inner = total - 40 in
    let field = be16_lem inner (omega arith) in
    let hi = inner / 256 % 256 in
    let lo = inner % 256 in
    let first = 0x60 + ip_info.tos_value / 16 % 16 in
    let second = ip_info.tos_value % 16 * 16 + ip_info.flow_label / 2 ^ 16 % 16 in
    let f₁ = ip_info.flow_label / 256 % 256 in
    let f₂ = ip_info.flow_label % 256 in
    let whole : 40 + be16 hi lo ≤ length bytes = rw (field, sized) (omega arith) in
    let layer4 =
      parse_udp-ipv6 (parse_nested 6) first second f₁ f₂ hi lo ttl (src_port / 256 % 256)
        (src_port % 256) (dst_port / 256 % 256) (dst_port % 256) (l4 / 256 % 256) (l4 % 256) rest
        (rw (len) (omega arith)) (rw (len, field) (omega arith)) whole (rw (sized) (omega arith)) in
    let left : inner ≡ l4 = omega arith in
    let sum : 40 + inner ≡ total = omega arith in
    parse_packet-ipv6 first second f₁ f₂ hi lo 17 ttl (udp_bytes src_port dst_port payload)
      (omega arith)
    ∙ (parse_ipv6-layer4 (parse_nested 6) first second f₁ f₂ hi lo 17 ttl
          (udp_bytes src_port dst_port payload) whole (rw (sized) (omega arith))
        ∙ (ap (λ o. and_then o (finish_ipv6 true (40 + be16 hi lo) 0)) layer4
            ∙ (rw (field, sum, left) refl)))

-- A UDP packet of a script, for IPv4 or IPv6 and a total length that has 16 bits: new_udp_packet builds it,
-- and parse_packet accepts its bytes and finds in them the headers, pointers and lengths of the packet
-- built. Only the direction is not in the bytes.
pub new_udp_packet-parsed :
    (family : Family) (direction : Direction) (ip_info : IpInfo) (payload src_port dst_port : ℕ)
    → ip_header_min_len family + 8 + payload < 2 ^ 16
    → (b : Built) × (new_udp_packet family direction ip_info payload src_port dst_port
        ≡ some (built b))
      × (parse_packet (packet_new b.packet.buffer) (length b.packet.buffer) PacketLayer.layer_3_ip
          ≡ ret packet_ok (record b.packet { direction = Direction.invalid }))
new_udp_packet-parsed Family.inet direction ip_info payload src_port dst_port small = (
  built_udp ip_info (udp4 ip_info payload src_port dst_port direction),
  new_udp4 direction ip_info payload src_port dst_port small,
  parse_udp4 ip_info payload src_port dst_port small,
)
new_udp_packet-parsed Family.inet6 direction ip_info payload src_port dst_port small = (
  built_udp ip_info (udp6 ip_info payload src_port dst_port direction),
  new_udp6 direction ip_info payload src_port dst_port small,
  parse_udp6 ip_info payload src_port dst_port small,
)
