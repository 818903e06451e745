-- ===== src/Verify/Headers.antt =====
-- run_packet.c: verify_outbound_live_headers and the functions for each type of header.
use tcp_fuzz.Prelude.{
  ℕ, ◌+◌, ◌/◌, ◌%◌, ◌==◌, ◌&&◌, ◌||◌, not, if◌then◌else◌, Bool, true, false, Option, none, some,
}
use tcp_fuzz.Prelude.{List, ◌∷◌, add32, get_or, length}
use tcp_fuzz.Prelude.Fail.{◌>>=◌, ◌>>◌, guard}
use tcp_fuzz.Verify.{
  TosCheck, Ipv4Header, Ipv6Header, TcpHeader, GreHeader, HeaderFields, PacketFields,
}
use tcp_fuzz.Parser.Layer4.{bit, gre_len}
use tcp_fuzz.Verify.{has_ip, has_layer4, tcp_options_allowance}

abbrev pub check_field : ℕ → ℕ → Bool
check_field expected actual = actual == expected

-- `ECN_ECT01`
abbrev pub ecn_ect01 : ℕ
ecn_ect01 = 4

-- `TTL_CHECK_NONE`
abbrev pub ttl_check_none : ℕ
ttl_check_none = 255

unfoldable pub verify_outbound_live_tos : TosCheck → ℕ → ℕ → Bool
verify_outbound_live_tos TosCheck.check_none actual_tos_byte script_tos_byte = true
verify_outbound_live_tos TosCheck.check_ecn actual_tos_byte script_tos_byte =
    if script_tos_byte == ecn_ect01
    then (actual_tos_byte % 4 == 2) || (actual_tos_byte % 4 == 1)
    else check_field script_tos_byte (actual_tos_byte % 4)
verify_outbound_live_tos TosCheck.check_tos actual_tos_byte script_tos_byte =
    check_field script_tos_byte actual_tos_byte

unfoldable pub verify_outbound_live_ttl_or_hl : ℕ → ℕ → Bool
verify_outbound_live_ttl_or_hl actual_ttl_byte script_ttl_byte =
    if script_ttl_byte == ttl_check_none then true else check_field script_ttl_byte actual_ttl_byte

-- `strict && check_field(...)`, where the expected value adds the allowance.
unfoldable pub check_length : Bool → Option ℕ → ℕ → ℕ → Option Bool
check_length false allowance expected actual = some true
check_length true none expected actual = none
check_length true (some extra) expected actual = some (check_field (expected + extra) actual)

-- The first argument is the allowance for options.
unfoldable pub verify_ipv4 : Option ℕ → TosCheck → Bool → Ipv4Header → Ipv4Header → Option Bool
unfolding check_length verify_outbound_live_tos verify_outbound_live_ttl_or_hl
verify_ipv4 allowance tos_chk strict actual script =
    if check_field script.version actual.version
      && (check_field script.protocol actual.protocol && check_field script.ihl actual.ihl)
    then (check_length strict allowance script.tot_len actual.tot_len >>= λ ok. some (
        ok
        && (verify_outbound_live_tos tos_chk actual.tos script.tos
            && verify_outbound_live_ttl_or_hl actual.ttl script.ttl)))
    else some false

unfoldable pub verify_ipv6 : Option ℕ → TosCheck → Bool → Ipv6Header → Ipv6Header → Option Bool
unfolding check_length verify_outbound_live_tos verify_outbound_live_ttl_or_hl
verify_ipv6 allowance tos_chk strict actual script =
    if check_field script.version actual.version
    then (check_length strict allowance script.payload_len actual.payload_len >>= λ ok. some (
        ok
        && (check_field script.next_header actual.next_header
            && (verify_outbound_live_tos tos_chk actual.traffic_class script.traffic_class
                && verify_outbound_live_ttl_or_hl actual.hop_limit script.hop_limit))))
    else some false

-- The number that `seq` is checked against.
abbrev pub expected_seq : Bool → ℕ → ℕ → ℕ
expected_seq true payload_len seq = seq
expected_seq false payload_len seq = add32 seq payload_len

-- `payload_len` and `win_nocheck` are those of the script's packet.
unfoldable pub verify_tcp : Option ℕ → ℕ → Bool → Bool → TcpHeader → TcpHeader → Option Bool
verify_tcp allowance payload_len win_nocheck strict actual script = allowance >>= λ extra. some (
    check_field (script.doff + extra / 4) actual.doff
    && ((not strict || check_field script.fin actual.fin)
        && (check_field script.syn actual.syn
            && (check_field script.rst actual.rst
                && ((not strict || check_field script.psh actual.psh)
                    && (check_field script.ack actual.ack
                        && (check_field script.urg actual.urg
                            && (check_field script.ece actual.ece
                                && ((not strict || check_field script.cwr actual.cwr)
                                    && (check_field script.res1 actual.res1
                                        && (check_field (expected_seq strict payload_len script.seq)
                                              actual.seq
                                            && (check_field script.ack_seq actual.ack_seq
                                                && ((win_nocheck
                                                      || check_field script.window actual.window)
                                                    && check_field script.urg_ptr
                                                        actual.urg_ptr)))))))))))))

unfoldable pub verify_udp : Bool → ℕ → ℕ → Bool
verify_udp strict actual_len script_len = not strict || check_field script_len actual_len

-- gre_len supports version 0 alone, and no routing.
unfoldable pub has_gre_len : GreHeader → Bool
has_gre_len gre = (gre.version % 8 == 0) && not (bit 64 gre.flags)

-- The place of the next word behind one that is in the header if `has`.
abbrev pub next_word : Bool → ℕ → ℕ
next_word has i = if has then i + 1 else i

abbrev pub check_word : Bool → List ℕ → List ℕ → ℕ → Bool
check_word has actual script i = not has || (get_or script i 0 == get_or actual i 0)

-- The word of the checksum and the offset, that of the key and that of the sequence number.
unfoldable pub check_words : Bool → Bool → Bool → List ℕ → List ℕ → Bool
check_words has_sum has_key has_seq actual script =
    let key = next_word has_sum 0 in
    let seq = next_word has_key key in
    check_word has_sum actual script 0
    && (check_word has_key actual script key && check_word has_seq actual script seq)

unfoldable pub verify_gre : GreHeader → GreHeader → Option Bool
unfolding gre_len has_gre_len check_words
verify_gre actual script =
    guard (has_gre_len script)
    >> guard (has_gre_len actual)
    >> some (
        check_field (gre_len script.flags) (gre_len actual.flags)
        && (((script.flags == actual.flags) && (script.version == actual.version))
            && ((script.proto == actual.proto)
                && check_words (bit 128 script.flags || bit 64 script.flags) (bit 32 script.flags)
                    (bit 16 script.flags) actual.words script.words)))

-- The loop over the entries, of as many entries on both sides.
unfoldable pub same_entries : List ℕ → List ℕ → Bool
same_entries (a ∷ actual) (s ∷ script) = let rest = same_entries actual script in (a == s) && rest
same_entries _ _ = true

unfoldable pub verify_mpls : List ℕ → List ℕ → Bool
unfolding same_entries
verify_mpls actual script = (length script == length actual) && same_entries actual script

-- verify_icmpv4 and verify_icmpv6 are the same.
unfoldable pub verify_icmp : ℕ → ℕ → ℕ → ℕ → Bool
verify_icmp actual_type actual_code script_type script_code =
    check_field script_type actual_type && check_field script_code actual_code

unfoldable pub verify_header :
    PacketFields → PacketFields → Bool → HeaderFields → HeaderFields → Option Bool
unfolding verify_ipv4 verify_ipv6 verify_tcp verify_udp verify_gre verify_mpls verify_icmp
    tcp_options_allowance
verify_header actual_packet script_packet strict (HeaderFields.ipv4 a) (HeaderFields.ipv4 s) =
    verify_ipv4 (tcp_options_allowance actual_packet script_packet) script_packet.tos_chk strict a s
verify_header actual_packet script_packet strict (HeaderFields.ipv6 a) (HeaderFields.ipv6 s) =
    verify_ipv6 (tcp_options_allowance actual_packet script_packet) script_packet.tos_chk strict a s
verify_header actual_packet script_packet strict (HeaderFields.tcp a) (HeaderFields.tcp s) =
    verify_tcp (tcp_options_allowance actual_packet script_packet) script_packet.payload_len
      script_packet.win_nocheck strict a s
verify_header actual_packet script_packet strict (HeaderFields.gre a) (HeaderFields.gre s) =
    verify_gre a s
verify_header actual_packet script_packet strict (HeaderFields.mpls a) (HeaderFields.mpls s) =
    some (verify_mpls a s)
verify_header actual_packet script_packet strict (HeaderFields.udp a) (HeaderFields.udp s) =
    some (verify_udp strict a s)
verify_header actual_packet script_packet strict (HeaderFields.icmpv4 a b)
      (HeaderFields.icmpv4 s t) =
    some (verify_icmp a b s t)
verify_header actual_packet script_packet strict (HeaderFields.icmpv6 a b)
      (HeaderFields.icmpv6 s t) =
    some (verify_icmp a b s t)
verify_header actual_packet script_packet strict _ _ = some false

-- The loop over the layers.
unfoldable pub verify_layers :
    PacketFields → PacketFields → Bool → List HeaderFields → List HeaderFields → Option Bool
unfolding verify_header
verify_layers actual_packet script_packet strict (a ∷ actual) (s ∷ script) =
    let rest = verify_layers actual_packet script_packet strict actual script in
    verify_header actual_packet script_packet strict a s >>= λ ok. if ok then rest else some false
verify_layers actual_packet script_packet strict _ _ = some true

unfoldable pub verify_outbound_live_headers : PacketFields → PacketFields → Bool → Option Bool
unfolding verify_layers has_ip has_layer4
verify_outbound_live_headers actual_packet script_packet strict =
    guard (has_ip actual_packet.headers)
    >> guard (has_layer4 actual_packet.headers)
    >> (if length actual_packet.headers == length script_packet.headers
        then verify_layers actual_packet script_packet strict actual_packet.headers
            script_packet.headers
        else some false)
