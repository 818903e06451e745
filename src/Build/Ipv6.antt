-- ===== src/Build/Ipv6.antt =====
-- new_tcp_packet with an IPv6 header, and the parser on what it builds.
use tcp_fuzz.Prelude.{◌+◌, ◌-◌, ◌*◌, ◌/◌, ◌%◌, ◌^◌, ◌≤◌, ◌<◌, ◌≡◌, refl, ap, ◌∙◌, true, arith, be16}
use tcp_fuzz.Prelude.{◌∷◌, ◌++◌, length, replicate, some}
use tcp_fuzz.Packet.{Direction, Packet, HeaderType, packet_new}
use tcp_fuzz.Parser.Outcome.{ret, packet_ok, and_then}
use tcp_fuzz.Parser.Layer3.{finish_ipv6}
use tcp_fuzz.Parser.Entry.{PacketLayer, parse_nested, parse_packet}
use tcp_fuzz.Build.{
  Family, TcpSpec, set_ipv6_header, set_packet_ip_header, append_layer4, option_bytes, half,
  tcp_bytes, finish_tcp, new_tcp_packet, built, flag_byte, window_bits, ttl_or_none,
}
use tcp_fuzz.Build.Layer3.{parse_ipv6-layer4, parse_packet-ipv6}
use tcp_fuzz.Build.Layer4.{parse_tcp-ipv6}
use tcp_fuzz.Build.Frames.{
  framed, with_ip6, append6_lem, bind_two, length-tcp_bytes, be16_lem, offset_lem, IsTcpSpec,
  tcp_total, accepted_lem, tcp_length, built_of, finish_lem,
}

abbrev pub tcp6 : TcpSpec → Direction → Packet
tcp6 spec direction =
    let total = tcp_total Family.inet6 spec in
    let bytes =
      set_ipv6_header total spec.ip_info.tos_value spec.ip_info.flow_label spec.ip_info.ttl 6
        (tcp_bytes spec) in
    record (framed bytes HeaderType.ipv6 40 total HeaderType.tcp (tcp_length spec)
      (tcp_length spec + spec.tcp_payload_bytes) direction) { ipv6 = some 0; tcp = some 40 }

pub new_tcp6 :
    (spec : TcpSpec)
    → IsTcpSpec spec
    → tcp_total Family.inet6 spec < 2 ^ 16
    → new_tcp_packet Family.inet6 spec ≡ some (built (built_of spec (tcp6 spec spec.direction)))
unfolding set_packet_ip_header set_ipv6_header
new_tcp6 spec h small =
    let total = tcp_total Family.inet6 spec in
    let bytes =
      set_ipv6_header total spec.ip_info.tos_value spec.ip_info.flow_label spec.ip_info.ttl 6
        (tcp_bytes spec) in
    let sized : length bytes ≡ total = omega (arith, length-tcp_bytes spec) in
    let appended =
      append6_lem bytes HeaderType.tcp (tcp_length spec) spec.tcp_payload_bytes total spec.direction
        sized refl (omega arith) in
    accepted_lem Family.inet6 spec h small
    ∙ (bind_two (set_packet_ip_header Family.inet6 total spec.ip_info 6 (tcp_bytes spec))
          (append_layer4 40 HeaderType.tcp (tcp_length spec) spec.tcp_payload_bytes total
            spec.direction)
          (finish_tcp spec 40) _ _ (with_ip6 bytes (omega arith)) appended
        ∙ ap some (
            finish_lem spec 40
              (record (framed bytes HeaderType.ipv6 40 total HeaderType.tcp (tcp_length spec)
                (tcp_length spec + spec.tcp_payload_bytes) spec.direction) { ipv6 = some 0 })
              h.window))

pub parse_tcp6 :
    (spec : TcpSpec)
    → IsTcpSpec spec
    → tcp_total Family.inet6 spec < 2 ^ 16
    → let packet = tcp6 spec Direction.invalid in
      parse_packet (packet_new packet.buffer) (length packet.buffer) PacketLayer.layer_3_ip
      ≡ ret packet_ok packet
unfolding set_ipv6_header tcp_bytes and_then finish_ipv6
parse_tcp6 spec h small =
    let total = tcp_total Family.inet6 spec in
    let n = length (option_bytes spec.tcp_options) in
    let bytes =
      set_ipv6_header total spec.ip_info.tos_value spec.ip_info.flow_label spec.ip_info.ttl 6
        (tcp_bytes spec) in
    let sized : length bytes ≡ total = omega (arith, length-tcp_bytes spec) in
    let payload = total - 40 in
    let field = be16_lem payload (omega arith) in
    let offset = offset_lem (20 + n) (omega (arith, h.padded)) in
    let whole : 40 + be16 (payload / 256 % 256) (payload % 256) ≤ length bytes =
      rw (field, sized) (omega arith) in
    let rest =
      flag_byte spec.flags
      ∷ half (window_bits spec.window) (
          0
          ∷ 0
          ∷ half spec.urg_ptr
              (option_bytes spec.tcp_options ++ replicate spec.tcp_payload_bytes 0)) in
    let first = 0x60 + spec.ip_info.tos_value / 16 % 16 in
    let second = spec.ip_info.tos_value % 16 * 16 + spec.ip_info.flow_label / 2 ^ 16 % 16 in
    let f₁ = spec.ip_info.flow_label / 256 % 256 in
    let f₂ = spec.ip_info.flow_label % 256 in
    let hop_limit = ttl_or_none spec.ip_info.ttl in
    let hi = payload / 256 % 256 in
    let lo = payload % 256 in
    let layer4 =
      parse_tcp-ipv6 (parse_nested 6) first second f₁ f₂ hi lo hop_limit (spec.src_port / 256 % 256)
        (spec.src_port % 256) (spec.dst_port / 256 % 256) (spec.dst_port % 256)
        (spec.start_sequence / 2 ^ 16 / 256 % 256) (spec.start_sequence / 2 ^ 16 % 256)
        (spec.start_sequence / 256 % 256) (spec.start_sequence % 256)
        (spec.ack_sequence / 2 ^ 16 / 256 % 256) (spec.ack_sequence / 2 ^ 16 % 256)
        (spec.ack_sequence / 256 % 256) (spec.ack_sequence % 256) ((20 + n) / 4 * 16) rest
        (rw (offset) (omega arith)) (rw (offset, field) (omega arith)) whole
        (rw (sized) (omega arith)) in
    let left : payload ≡ 20 + n + spec.tcp_payload_bytes = omega arith in
    let sum : 40 + payload ≡ total = omega arith in
    parse_packet-ipv6 first second f₁ f₂ hi lo 6 hop_limit (tcp_bytes spec) (omega arith)
    ∙ (parse_ipv6-layer4 (parse_nested 6) first second f₁ f₂ hi lo 6 hop_limit (tcp_bytes spec)
          whole (rw (sized) (omega arith))
        ∙ (ap (λ o. and_then o (finish_ipv6 true (40 + be16 hi lo) 0)) layer4
            ∙ (rw (field, offset, sum, left) refl)))
