-- ===== src/Build/Ipv4.antt =====
-- new_tcp_packet with an IPv4 header, and the parser on what it builds.
use tcp_fuzz.Prelude.{◌+◌, ◌-◌, ◌*◌, ◌/◌, ◌%◌, ◌^◌, ◌≤◌, ◌<◌, ◌≡◌, refl, ap, ◌∙◌, true, arith, be16}
use tcp_fuzz.Prelude.{◌∷◌, ◌++◌, length, replicate, some}
use tcp_fuzz.Packet.{Direction, Packet, HeaderType, packet_new}
use tcp_fuzz.Parser.Outcome.{ret, packet_ok, and_then}
use tcp_fuzz.Parser.Layer3.{finish_ipv4}
use tcp_fuzz.Parser.Entry.{PacketLayer, parse_nested, parse_packet}
use tcp_fuzz.Build.{
  Family, TcpSpec, set_ipv4_header, set_packet_ip_header, append_layer4, option_bytes, half,
  tcp_bytes, finish_tcp, new_tcp_packet, built, flag_byte, window_bits, ttl_or_none,
}
use tcp_fuzz.Build.Layer3.{parse_ipv4-layer4, parse_packet-ipv4}
use tcp_fuzz.Build.Layer4.{parse_tcp-ipv4}
use tcp_fuzz.Build.Frames.{
  framed, with_ip4, append4_lem, bind_two, length-tcp_bytes, be16_lem, offset_lem, IsTcpSpec,
  tcp_total, accepted_lem, tcp_length, built_of, finish_lem,
}

abbrev pub tcp4 : TcpSpec → Direction → Packet
tcp4 spec direction =
    let total = tcp_total Family.inet spec in
    let bytes = set_ipv4_header total spec.ip_info.tos_value spec.ip_info.ttl 6 (tcp_bytes spec) in
    record (framed bytes HeaderType.ipv4 20 total HeaderType.tcp (tcp_length spec)
      (tcp_length spec + spec.tcp_payload_bytes) direction) { ipv4 = some 0; tcp = some 20 }

pub new_tcp4 :
    (spec : TcpSpec)
    → IsTcpSpec spec
    → tcp_total Family.inet spec < 2 ^ 16
    → new_tcp_packet Family.inet spec ≡ some (built (built_of spec (tcp4 spec spec.direction)))
unfolding set_packet_ip_header set_ipv4_header
new_tcp4 spec h small =
    let total = tcp_total Family.inet spec in
    let bytes = set_ipv4_header total spec.ip_info.tos_value spec.ip_info.ttl 6 (tcp_bytes spec) in
    let sized : length bytes ≡ total = omega (arith, length-tcp_bytes spec) in
    let appended =
      append4_lem bytes HeaderType.tcp (tcp_length spec) spec.tcp_payload_bytes total spec.direction
        sized refl (omega arith) in
    accepted_lem Family.inet spec h small
    ∙ (bind_two (set_packet_ip_header Family.inet total spec.ip_info 6 (tcp_bytes spec))
          (append_layer4 20 HeaderType.tcp (tcp_length spec) spec.tcp_payload_bytes total
            spec.direction)
          (finish_tcp spec 20) _ _ (with_ip4 bytes (omega arith)) appended
        ∙ ap some (
            finish_lem spec 20
              (record (framed bytes HeaderType.ipv4 20 total HeaderType.tcp (tcp_length spec)
                (tcp_length spec + spec.tcp_payload_bytes) spec.direction) { ipv4 = some 0 })
              h.window))

pub parse_tcp4 :
    (spec : TcpSpec)
    → IsTcpSpec spec
    → tcp_total Family.inet spec < 2 ^ 16
    → let packet = tcp4 spec Direction.invalid in
      parse_packet (packet_new packet.buffer) (length packet.buffer) PacketLayer.layer_3_ip
      ≡ ret packet_ok packet
unfolding set_ipv4_header tcp_bytes and_then finish_ipv4
parse_tcp4 spec h small =
    let total = tcp_total Family.inet spec in
    let n = length (option_bytes spec.tcp_options) in
    let bytes = set_ipv4_header total spec.ip_info.tos_value spec.ip_info.ttl 6 (tcp_bytes spec) in
    let sized : length bytes ≡ total = omega (arith, length-tcp_bytes spec) in
    let total_field = be16_lem total small in
    let offset = offset_lem (20 + n) (omega (arith, h.padded)) in
    let low : 20 ≤ be16 (total / 256 % 256) (total % 256) = rw (total_field) (omega arith) in
    let whole : be16 (total / 256 % 256) (total % 256) ≤ length bytes =
      rw (total_field, sized) (omega arith) in
    let left : total - 20 ≡ 20 + n + spec.tcp_payload_bytes = omega arith in
    let rest =
      flag_byte spec.flags
      ∷ half (window_bits spec.window) (
          0
          ∷ 0
          ∷ half spec.urg_ptr
              (option_bytes spec.tcp_options ++ replicate spec.tcp_payload_bytes 0)) in
    let layer4 =
      parse_tcp-ipv4 (parse_nested 6) spec.ip_info.tos_value (total / 256 % 256) (total % 256)
        (ttl_or_none spec.ip_info.ttl) (spec.src_port / 256 % 256) (spec.src_port % 256)
        (spec.dst_port / 256 % 256) (spec.dst_port % 256) (spec.start_sequence / 2 ^ 16 / 256 % 256)
        (spec.start_sequence / 2 ^ 16 % 256) (spec.start_sequence / 256 % 256)
        (spec.start_sequence % 256) (spec.ack_sequence / 2 ^ 16 / 256 % 256)
        (spec.ack_sequence / 2 ^ 16 % 256) (spec.ack_sequence / 256 % 256) (spec.ack_sequence % 256)
        ((20 + n) / 4 * 16) rest (rw (offset) (omega arith))
        (rw (offset, total_field) (omega arith)) whole (rw (sized) (omega arith)) in
    parse_packet-ipv4 spec.ip_info.tos_value (total / 256 % 256) (total % 256)
      (ttl_or_none spec.ip_info.ttl) 6 (tcp_bytes spec)
    ∙ (parse_ipv4-layer4 (parse_nested 6) spec.ip_info.tos_value (total / 256 % 256) (total % 256)
          (ttl_or_none spec.ip_info.ttl) 6 (tcp_bytes spec) low whole (rw (sized) (omega arith))
        ∙ (ap (λ o. and_then o (finish_ipv4 true (be16 (total / 256 % 256) (total % 256)) 0)) layer4
            ∙ (rw (total_field, offset, left) refl)))
