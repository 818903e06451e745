-- ===== src/Parser/Layer3.antt =====
-- The layer 3 functions of packet_parser.c. parse_ipv4, parse_ipv6 and parse_mpls call one another
-- through parse_layer4, parse_gre and parse_layer3_packet: each takes as `nested` what it calls for
-- a header inside, and `Entry` ties the knot.
-- parse_ipv4 computes the header checksum too; nothing depends on it (the error is commented out).
use tcp_fuzz.Prelude.{ℕ, zero, suc, ◌+◌, ◌-◌, ◌*◌, ◌/◌, ◌%◌, ◌==◌, ltb, leb, if◌then◌else◌}
use tcp_fuzz.Prelude.{Bool, true, false, not, ◌&&◌, ◌||◌, Option, none, some}
use tcp_fuzz.Packet.{Packet, HeaderType}
use tcp_fuzz.Parser.Outcome.{ParseError, packet_unknown_l4, Outcome, ret, out_of_fuel}
use tcp_fuzz.Parser.Outcome.{load8, load16, assert, bad, and_then}
use tcp_fuzz.Parser.Layer4.{append_or_bad, parse_tcp, parse_udp, parse_icmpv4, parse_icmpv6}
use tcp_fuzz.Parser.Layer4.{parse_gre}

-- The function that parses a header which another one holds.
pub data Nested : Type 0 where
  ipv4 ipv6 mpls : Nested

-- `f packet header_start packet_end`
abbrev pub Parse : Type 0
Parse = Packet → ℕ → ℕ → Outcome

abbrev pub is_null : Option ℕ → Bool
is_null none = true
is_null (some p) = false

module _ (nested : Nested → Parse) where
  -- The protocol numbers are IPPROTO_TCP, UDP, ICMP, ICMPV6, GRE, IPIP and IPV6.
  unfoldable pub parse_layer4 : (Packet → ℕ → ℕ → ℕ → Outcome) → Packet → ℕ → ℕ → ℕ → ℕ → Outcome
  parse_layer4 by_proto packet layer4_start layer4_protocol layer4_bytes packet_end =
      if layer4_protocol == 6
      then parse_tcp packet layer4_start layer4_bytes packet_end
      else if layer4_protocol == 17
      then parse_udp packet layer4_start layer4_bytes packet_end
      else if layer4_protocol == 1
      then parse_icmpv4 packet layer4_start layer4_bytes packet_end
      else if layer4_protocol == 58
      then parse_icmpv6 packet layer4_start layer4_bytes packet_end
      else if layer4_protocol == 47
      then parse_gre by_proto packet layer4_start layer4_bytes packet_end
      else if layer4_protocol == 4
      then nested Nested.ipv4 packet layer4_start packet_end
      else if layer4_protocol == 41
      then nested Nested.ipv6 packet layer4_start packet_end
      else ret packet_unknown_l4 packet

  -- `proto` is ETHERTYPE_IP, ETHERTYPE_IPV6, ETHERTYPE_MPLS_UC or ETHERTYPE_MPLS_MC.
  unfoldable pub parse_layer3_packet_by_proto : Packet → ℕ → ℕ → ℕ → Outcome
  parse_layer3_packet_by_proto packet proto header_start packet_end =
      if proto == 0x0800
      then (if ltb packet_end (header_start + 20)
          then bad ParseError.ipv4_header_overflows_packet packet
          else load8 packet header_start λ b.
            if b / 16 == 4
            then nested Nested.ipv4 packet header_start packet_end
            else bad ParseError.bad_ip_version_for_ethertype_ip packet)
      else if proto == 0x86dd
      then (if ltb packet_end (header_start + 40)
          then bad ParseError.ipv6_header_overflows_packet packet
          else load8 packet header_start λ b.
            if b / 16 == 6
            then nested Nested.ipv6 packet header_start packet_end
            else bad ParseError.bad_ip_version_for_ethertype_ipv6 packet)
      else if proto == 0x8847 || proto == 0x8848
      then nested Nested.mpls packet header_start packet_end
      else ret packet_unknown_l4 packet

  unfoldable pub parse_layer3_packet : Parse
  parse_layer3_packet packet header_start packet_end =
      if ltb packet_end (header_start + 20)
      then bad ParseError.ip_header_overflows_packet packet
      else load8 packet header_start λ b.
        if b / 16 == 4
        then nested Nested.ipv4 packet header_start packet_end
        else if b / 16 == 6
        then nested Nested.ipv6 packet header_start packet_end
        else bad ParseError.unsupported_ip_version packet

-- The innermost layer 3 header is the primary one; the outermost gives the length of the packet.
unfoldable pub finish_ipv4 : Bool → ℕ → ℕ → Packet → Packet
finish_ipv4 is_outer ip_total_bytes header_start packet = record packet {
  ipv4 = if is_null packet.ipv4 && is_null packet.ipv6 then some header_start else packet.ipv4;
  ip_bytes = if is_outer then ip_total_bytes else packet.ip_bytes;
}

unfoldable pub finish_ipv6 : Bool → ℕ → ℕ → Packet → Packet
finish_ipv6 is_outer ip_total_bytes header_start packet = record packet {
  ipv6 = if is_null packet.ipv4 && is_null packet.ipv6 then some header_start else packet.ipv6;
  ip_bytes = if is_outer then ip_total_bytes else packet.ip_bytes;
}

-- The do-while loop of parse_mpls over the label stack, with a bound on its rounds. `rest` is what
-- follows it, with `p` and `mpls_header_bytes`.
unfoldable pub mpls_stack : ℕ → Packet → ℕ → ℕ → ℕ → (ℕ → ℕ → Outcome) → Outcome
mpls_stack zero packet p mpls_header_bytes packet_end rest = out_of_fuel
mpls_stack (suc rounds) packet p mpls_header_bytes packet_end rest =
    let more = mpls_stack rounds packet (p + 4) (mpls_header_bytes + 4) packet_end rest in
    if ltb packet_end (p + 4)
    then bad ParseError.mpls_entry_overflows_packet packet
    else load8 packet (p + 2) λ b.
      if not (b % 2 == 1) && ltb (p + 4) packet_end
      then more
      else rest (p + 4) (mpls_header_bytes + 4)

module _ (nested : Nested → Parse) where
  unfoldable pub parse_ipv4 : Parse
  parse_ipv4 packet p packet_end =
      let is_outer = packet.ip_bytes == 0 in
      load8 packet p λ b.
        let ip_header_bytes = b % 16 * 4 in
        if ltb ip_header_bytes 20
        then bad ParseError.ip_header_too_short packet
        else if ltb packet_end (p + ip_header_bytes)
        then bad ParseError.full_ip_header_overflows_packet packet
        else load16 packet (p + 2) λ ip_total_bytes.
          if ltb packet_end (p + ip_total_bytes)
          then bad ParseError.ip_payload_overflows_packet packet
          else if ltb ip_total_bytes ip_header_bytes
          then bad ParseError.ip_header_bigger_than_datagram packet
          else load16 packet (p + 6) λ frag_off.
            if frag_off / 0x2000 % 2 == 1
            then bad ParseError.more_fragments_remaining packet
            else if not (frag_off % 0x2000 == 0)
            then bad ParseError.nonzero_fragment_offset packet
            else append_or_bad packet HeaderType.ipv4 ip_header_bytes ip_total_bytes λ packet'.
              assert (leb (p + ip_header_bytes) packet_end) (
                load8 packet' (p + 9) λ protocol.
                  and_then
                    (parse_layer4 nested (parse_layer3_packet_by_proto nested) packet'
                      (p + ip_header_bytes) protocol (ip_total_bytes - ip_header_bytes) packet_end)
                    (finish_ipv4 is_outer ip_total_bytes p))

  unfoldable pub parse_ipv6 : Parse
  parse_ipv6 packet p packet_end =
      let is_outer = packet.ip_bytes == 0 in
      if ltb packet_end (p + 40)
      then bad ParseError.ipv6_header_overflows_packet packet
      else load16 packet (p + 4) λ payload_len.
        let ip_total_bytes = 40 + payload_len in
        if ltb packet_end (p + ip_total_bytes)
        then bad ParseError.ipv6_payload_overflows_packet packet
        else assert (leb 40 ip_total_bytes) (
            append_or_bad packet HeaderType.ipv6 40 ip_total_bytes λ packet'.
              assert (leb (p + 40) packet_end) (
                load8 packet' (p + 6) λ next_header.
                  and_then
                    (parse_layer4 nested (parse_layer3_packet_by_proto nested) packet' (p + 40)
                      next_header (ip_total_bytes - 40) packet_end)
                    (finish_ipv6 is_outer ip_total_bytes p)))

  -- Each round of the loop takes four bytes, so as many rounds as there are bytes are enough.
  unfoldable pub parse_mpls : Parse
  parse_mpls packet header_start packet_end =
      let mpls_total_bytes = packet_end - header_start in
      mpls_stack (suc mpls_total_bytes) packet header_start 0 packet_end λ p mpls_header_bytes.
        assert (leb mpls_header_bytes mpls_total_bytes) (
          append_or_bad packet HeaderType.mpls mpls_header_bytes mpls_total_bytes
            λ packet'. assert (leb p packet_end) (parse_layer3_packet nested packet' p packet_end))
