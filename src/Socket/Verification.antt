-- ===== src/Socket/Verification.antt =====
-- run_packet.c: map_outbound_live_packet and verify_outbound_live_packet, which decide whether the packet
-- that was sniffed is the one of the script.
use tcp_fuzz.Prelude.{
  ◌==◌, ◌&&◌, ◌||◌, not, if◌then◌else◌, Bool, true, false, Option, none, some, List, [], ◌∷◌,
}
use tcp_fuzz.Verify.{HeaderFields}
use tcp_fuzz.Verify.Headers.{verify_outbound_live_headers}
use tcp_fuzz.Socket.{Socket, is_equal_tuple, socket_get_outbound}
use tcp_fuzz.Socket.Runner.{Config, has_tcp}
use tcp_fuzz.Socket.Find.{PacketInfo, packet_view}

-- STATUS_OK, STATUS_WARN and STATUS_ERR.
pub data Verdict : Type 0 where
  ok warn err : Verdict

-- The packet is an outbound one of the socket; for ICMP by its addresses alone.
unfoldable pub is_outbound_live : Socket → PacketInfo → Bool
unfolding is_equal_tuple socket_get_outbound
is_outbound_live socket live =
    if socket.protocol == 1 || (socket.protocol == 58)
    then live.tuple.src.ip == socket.live.local.ip && (live.tuple.dst.ip == socket.live.remote.ip)
    else is_equal_tuple live.tuple (socket_get_outbound socket.live)

-- `none` is a failed assert, `some none` is STATUS_ERR. What is mapped of the options is not in the
-- fields of the headers.
unfoldable pub map_outbound_live_packet :
    Config → Socket → PacketInfo → PacketInfo → Option (Option PacketInfo)
unfolding is_outbound_live socket_get_outbound packet_view
map_outbound_live_packet config socket script_packet live =
    let readable =
      config.outside.read_options script_packet.fields && config.outside.read_options live.fields in
    if not (is_outbound_live socket live)
    then none
    else if has_tcp (packet_view live).tcp && not readable
    then some none
    else some (some (record live { tuple = socket_get_outbound socket.script }))

abbrev pub non_fatal : Config → Verdict
non_fatal config = if config.non_fatal_packet then Verdict.warn else Verdict.err

unfoldable pub has_ipv6 : List HeaderFields → Bool
has_ipv6 [] = false
has_ipv6 (HeaderFields.ipv6 header ∷ headers) = true
has_ipv6 (_ ∷ headers) = has_ipv6 headers

-- The comparisons before that of the payload, where the headers agree.
unfoldable pub has_script_values : Config → PacketInfo → PacketInfo → Bool
unfolding has_ipv6 packet_view
has_script_values config actual script_packet =
    let actual_fields = actual.fields in
    let script_fields = script_packet.fields in
    (not (has_ipv6 script_fields.headers)
      || config.outside.verify_outbound_live_ipv6_flowlabel actual_fields script_fields)
    && (not (has_tcp (packet_view script_packet).tcp)
        || config.outside.verify_outbound_live_tcp_options actual_fields script_fields)

-- The payload, which is not compared for ICMP. `false` is a failed assert or abort().
unfoldable pub has_script_payload : Config → PacketInfo → PacketInfo → Bool
unfolding packet_view
has_script_payload config actual script_packet =
    let view = packet_view actual in
    let same_length = actual.fields.payload_len == script_packet.fields.payload_len in
    view.icmpv4
    || (view.icmpv6
        || (same_length
            && config.outside.verify_outbound_live_payload actual.fields script_packet.fields))

-- The answer to the comparison of the headers is the last argument.
abbrev pub compare_behind :
    Config → PacketInfo → PacketInfo → PacketInfo → Option Bool → Option Verdict
compare_behind config live actual script_packet none = none
compare_behind config live actual script_packet (some agree) =
    if not (agree && has_script_values config actual script_packet)
    then some (non_fatal config)
    else if not (has_script_payload config actual script_packet)
    then none
    else if config.outside.verify_time live.fields
    then some Verdict.ok
    else some (non_fatal config)

abbrev pub compare_mapped :
    Config → PacketInfo → PacketInfo → Option (Option PacketInfo) → Option Verdict
compare_mapped config live script_packet none = none
compare_mapped config live script_packet (some none) = some Verdict.err
compare_mapped config live script_packet (some (some actual)) =
    compare_behind config live actual script_packet
      (verify_outbound_live_headers actual.fields script_packet.fields true)

unfoldable pub verify_outbound_live_packet :
    Config → Socket → PacketInfo → PacketInfo → Option Verdict
unfolding map_outbound_live_packet has_script_values has_script_payload verify_outbound_live_headers
verify_outbound_live_packet config socket script_packet live =
    if not config.checker
    then some Verdict.ok
    else if not (config.outside.verify_outbound_live_checksums live.fields)
    then some Verdict.err
    else compare_mapped config live script_packet
        (map_outbound_live_packet config socket script_packet live)
