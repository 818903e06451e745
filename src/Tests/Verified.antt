-- ===== src/Tests/Verified.antt =====
-- Tests of the verification of outbound packets.
use tcp_fuzz.Prelude.{ℕ, ◌+◌, ◌≡◌, refl, arith, true, false, some, List, [], ◌∷◌, ◌↔◌, add32}
use tcp_fuzz.Verify.{
  TosCheck, TcpHeader, HeaderFields, PacketFields, no_tcp_header, find_tcp, has_ip, has_layer4,
  tcp_options_allowance, packet_tcp_options_len,
}
use tcp_fuzz.Verify.Headers.{
  verify_outbound_live_tos, verify_outbound_live_headers, verify_layers, verify_header, verify_ipv4,
  verify_tcp, check_length,
}
use tcp_fuzz.Verify.Equivalence.{LayersAgree, verify_headers_iff}
use tcp_fuzz.Verify.Fragments.{
  verify_packet_fragments, verify_fragments, IsStream, verify_fragments-IsStream,
}
use tcp_fuzz.Verify.FlowLabel.{
  Labels, Marked, verify_outbound_live_ipv6_flowlabel, verify_flow, IsFlow, verify_flow_iff,
}

abbrev ip : ℕ → HeaderFields
ip len =
    HeaderFields.ipv4
      (record { version = 4; protocol = 6; ihl = 5; tot_len = len; tos = 0; ttl = 64 })

abbrev tcp : ℕ → TcpHeader
tcp seq = record no_tcp_header { seq = seq; ack_seq = 7; doff = 5; ack = 1; window = 100 }

abbrev packet : ℕ → ℕ → PacketFields
packet seq len = record {
  headers = ip (40 + len) ∷ HeaderFields.tcp (tcp seq) ∷ [];
  payload_len = len;
  options_nocheck = false;
  win_nocheck = false;
  tos_chk = TosCheck.check_none;
}

same_packet : verify_outbound_live_headers (packet 1 10) (packet 1 10) true ≡ some true
unfolding verify_outbound_live_headers verify_layers verify_header verify_ipv4 verify_tcp
    check_length has_ip has_layer4 tcp_options_allowance
same_packet = refl

-- A packet of the stack may have options where the script leaves them open, and a longer header then.
abbrev open_options : PacketFields
open_options = record (packet 1 10) { options_nocheck = true }

abbrev longer : PacketFields
longer = record (packet 1 10) {
  headers = ip 62 ∷ HeaderFields.tcp (record (tcp 1) { doff = 8 }) ∷ [];
}

options_open : verify_outbound_live_headers longer open_options true ≡ some true
unfolding verify_outbound_live_headers verify_layers verify_header verify_ipv4 verify_tcp
    check_length has_ip has_layer4 tcp_options_allowance packet_tcp_options_len find_tcp
options_open = refl

other_sequence : verify_outbound_live_headers (packet 2 10) (packet 1 10) true ≡ some false
unfolding verify_outbound_live_headers verify_layers verify_header verify_ipv4 verify_tcp
    check_length has_ip has_layer4 tcp_options_allowance
other_sequence = refl

-- The script's [ect0] is the number 1, and on the wire the bits 1 are those of ECT(1).
ect0_of_the_script : verify_outbound_live_tos TosCheck.check_ecn 2 1 ≡ false
unfolding verify_outbound_live_tos
ect0_of_the_script = refl

verify_headers_iff_example :
    (verify_outbound_live_headers (packet 1 10) (packet 1 10) true ≡ some true) ↔ (
      (has_ip (packet 1 10).headers ≡ true)
      × (has_layer4 (packet 1 10).headers ≡ true)
      × LayersAgree (packet 1 10) (packet 1 10) (packet 1 10).headers (packet 1 10).headers)
verify_headers_iff_example = verify_headers_iff (packet 1 10) (packet 1 10)

-- A segment of 30 bytes in fragments of 10.
fragments : verify_fragments (packet 1 10) 10 30 (packet 11 10 ∷ packet 21 10 ∷ []) ≡ some true
unfolding verify_fragments verify_packet_fragments verify_outbound_live_headers verify_layers
    verify_header verify_ipv4 verify_tcp check_length has_ip has_layer4 tcp_options_allowance
fragments = refl

first_header : find_tcp (packet 1 10).headers ≡ some (tcp 1)
unfolding find_tcp
first_header = refl

verify_fragments-IsStream_example :
    IsStream
      (add32 (tcp 1).seq (packet 1 10).payload_len)
      (tcp 1).ack_seq
      (packet 11 10 ∷ packet 21 10 ∷ [])
verify_fragments-IsStream_example =
    verify_fragments-IsStream (packet 1 10) (packet 11 10 ∷ packet 21 10 ∷ []) 10 30 (tcp 1)
      first_header fragments

abbrev labels : ℕ → ℕ → Labels
labels script live = record { script = script; live = live }

-- The label changes once, in step.
abbrev flow : List Labels
flow = labels 1 500 ∷ labels 1 500 ∷ labels 2 600 ∷ []

flow_accepted : verify_flow (record { flowlabel_script = 0; flowlabel_live = 0 }) flow ≡ true
unfolding verify_flow verify_outbound_live_ipv6_flowlabel
flow_accepted = refl

flow_refused :
    verify_flow
      (record { flowlabel_script = 0; flowlabel_live = 0 })
      (labels 1 500 ∷ labels 1 501 ∷ [])
    ≡ false
unfolding verify_flow verify_outbound_live_ipv6_flowlabel
flow_refused = refl

flow-Marked : Marked flow
unfolding Marked
flow-Marked = (omega arith, (omega arith, (omega arith, tt)))

verify_flow_iff_example :
    (verify_flow (record { flowlabel_script = 0; flowlabel_live = 0 }) flow ≡ true) ↔ IsFlow flow
verify_flow_iff_example = verify_flow_iff flow flow-Marked
