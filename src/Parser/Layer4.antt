-- ===== src/Parser/Layer4.antt =====
-- The layer 4 functions of packet_parser.c. Messages go to `*error`, and DEBUGP is off.
-- `int` sums and differences stay far inside 31 bits: offsets are bounded by the buffer, and lengths
-- by 16-bit fields. `layer4_bytes` is the difference of two lengths that the caller has compared.
use tcp_fuzz.Prelude.{ℕ, ◌+◌, ◌*◌, ◌/◌, ◌%◌, ◌==◌, ltb, leb, if◌then◌else◌, ◌||◌}
use tcp_fuzz.Prelude.{Bool, not, none, some}
use tcp_fuzz.Packet.{Packet, HeaderType, packet_append_header, set_total_bytes}
use tcp_fuzz.Parser.Outcome.{ParseError, packet_ok, Outcome, ret, load8, load16, assert, bad}

-- `packet_append_header`, its test for NULL, and `header->total_bytes = total`.
unfoldable pub append_or_bad : Packet → HeaderType → ℕ → ℕ → (Packet → Outcome) → Outcome
unfolding packet_append_header
append_or_bad packet type header_bytes total rest =
    elim (packet_append_header packet type header_bytes) [
      | none ↦ bad ParseError.too_many_nested_headers packet
      | some packet' ↦ rest (set_total_bytes packet' total)
    ]

unfoldable pub parse_tcp : Packet → ℕ → ℕ → ℕ → Outcome
parse_tcp packet layer4_start layer4_bytes packet_end =
    if ltb layer4_bytes 20
    then bad ParseError.truncated_tcp_header packet
    else let packet' = record packet { tcp = some layer4_start } in
      load8 packet' (layer4_start + 12) λ off.
        let tcp_header_len = off / 16 * 4 in
        if ltb tcp_header_len 20
        then bad ParseError.tcp_data_offset_too_small packet'
        else if ltb layer4_bytes tcp_header_len
        then bad ParseError.tcp_data_offset_too_big packet'
        else append_or_bad packet' HeaderType.tcp tcp_header_len layer4_bytes λ packet''.
          assert (leb (layer4_start + layer4_bytes) packet_end) (ret packet_ok packet'')

unfoldable pub parse_udp : Packet → ℕ → ℕ → ℕ → Outcome
parse_udp packet layer4_start layer4_bytes packet_end =
    if ltb layer4_bytes 8
    then bad ParseError.truncated_udp_header packet
    else let packet' = record packet { udp = some layer4_start } in
      load16 packet' (layer4_start + 4) λ udp_len.
        if ltb udp_len 8
        then bad ParseError.udp_length_too_small_for_header packet'
        else if ltb udp_len layer4_bytes
        then bad ParseError.udp_length_too_small packet'
        else if ltb layer4_bytes udp_len
        then bad ParseError.udp_length_too_big packet'
        else append_or_bad packet' HeaderType.udp 8 layer4_bytes λ packet''.
          assert (leb (layer4_start + layer4_bytes) packet_end) (ret packet_ok packet'')

unfoldable pub parse_icmpv4 : Packet → ℕ → ℕ → ℕ → Outcome
parse_icmpv4 packet layer4_start layer4_bytes packet_end =
    if ltb layer4_bytes 8
    then bad ParseError.truncated_icmp_header packet
    else append_or_bad (record packet { icmpv4 = some layer4_start }) HeaderType.icmpv4 8
        layer4_bytes
        λ packet'. assert (leb (layer4_start + layer4_bytes) packet_end) (ret packet_ok packet')

unfoldable pub parse_icmpv6 : Packet → ℕ → ℕ → ℕ → Outcome
parse_icmpv6 packet layer4_start layer4_bytes packet_end =
    if ltb layer4_bytes 8
    then bad ParseError.truncated_icmp_header packet
    else append_or_bad (record packet { icmpv6 = some layer4_start }) HeaderType.icmpv6 8
        layer4_bytes
        λ packet'. assert (leb (layer4_start + layer4_bytes) packet_end) (ret packet_ok packet')

-- gre.h: the first flag byte of a GRE header holds, from the top, the bits for checksum, routing,
-- key and sequence number.
abbrev pub bit : ℕ → ℕ → Bool
bit mask flags = flags / mask % 2 == 1

unfoldable pub gre_len : ℕ → ℕ
gre_len flags =
    4
    + (if bit 128 flags || bit 64 flags then 4 else 0)
    + (if bit 32 flags then 4 else 0)
    + (if bit 16 flags then 4 else 0)

-- `next` is `parse_layer3_packet_by_proto`.
unfoldable pub parse_gre : (Packet → ℕ → ℕ → ℕ → Outcome) → Packet → ℕ → ℕ → ℕ → Outcome
parse_gre next packet layer4_start layer4_bytes packet_end =
    if ltb layer4_bytes 4
    then bad ParseError.truncated_gre_header packet
    else load8 packet (layer4_start + 1) λ version.
      if not (version % 8 == 0)
      then bad ParseError.gre_unsupported_version packet
      else load8 packet layer4_start λ flags.
        if bit 64 flags
        then bad ParseError.gre_unsupported_routing packet
        else let gre_header_len = gre_len flags in
          if ltb gre_header_len 4
          then bad ParseError.gre_length_too_small packet
          else if ltb layer4_bytes gre_header_len
          then bad ParseError.gre_length_too_big packet
          else assert (leb (layer4_start + layer4_bytes) packet_end) (
              append_or_bad packet HeaderType.gre gre_header_len layer4_bytes λ packet'.
                assert (leb (layer4_start + gre_header_len) packet_end) (
                  load16 packet' (layer4_start + 2)
                    λ proto. next packet' proto (layer4_start + gre_header_len) packet_end))
