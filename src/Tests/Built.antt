-- ===== src/Tests/Built.antt =====
-- Tests of the packets that a script describes.
use tcp_fuzz.Prelude.{◌≡◌, refl, arith, true, some, [], ◌∷◌, length}
use tcp_fuzz.Prelude.Int.{pos}
use tcp_fuzz.Packet.{Direction, packet_new}
use tcp_fuzz.Verify.{TosCheck}
use tcp_fuzz.Parser.Outcome.{ret, packet_ok}
use tcp_fuzz.Parser.Entry.{PacketLayer, parse_packet}
use tcp_fuzz.Build.{
  Family, IpInfo, TcpSpec, Built, BuildError, built, refused, is_tcp_flags_spec_valid, flag_byte,
  new_tcp_packet, new_udp_packet,
}
use tcp_fuzz.Build.Frames.{IsTcpSpec}
use tcp_fuzz.Build.RoundTrip.{new_tcp_packet-parsed}
use tcp_fuzz.Build.Udp.{new_udp_packet-parsed}

abbrev ip_info : IpInfo
ip_info = record { tos_check = TosCheck.check_none; tos_value = 0; flow_label = 0; ttl = 0 }

-- S.E with an option of four bytes and a payload of ten.
abbrev spec : TcpSpec
spec = record {
  direction = Direction.inbound;
  ip_info = ip_info;
  src_port = 1000;
  dst_port = 80;
  flags = 83 ∷ 46 ∷ 69 ∷ [];
  start_sequence = 1;
  tcp_payload_bytes = 10;
  ack_sequence = 2;
  window = pos 1024;
  urg_ptr = 0;
  tcp_options = some (2 ∷ 4 ∷ 5 ∷ 180 ∷ []);
}

flags_valid : is_tcp_flags_spec_valid (83 ∷ 46 ∷ 69 ∷ []) ≡ true
unfolding is_tcp_flags_spec_valid
flags_valid = refl

flags_bits : flag_byte (83 ∷ 46 ∷ 69 ∷ []) ≡ 0x52
unfolding flag_byte
flags_bits = refl

spec_valid : IsTcpSpec spec
spec_valid = record { padded = refl; fits = omega arith; valid = flags_valid; window = refl }

-- No options, which are then not checked, are not the same as options of no length.
not_padded :
    new_tcp_packet Family.inet (record spec { tcp_options = some (1 ∷ []) })
    ≡ some (refused BuildError.options_not_padded)
unfolding new_tcp_packet
not_padded = refl

new_tcp_packet-parsed_example :
    (b : Built) × (new_tcp_packet Family.inet6 spec ≡ some (built b))
    × (parse_packet (packet_new b.packet.buffer) (length b.packet.buffer) PacketLayer.layer_3_ip
        ≡ ret packet_ok (record b.packet { direction = Direction.invalid }))
new_tcp_packet-parsed_example = new_tcp_packet-parsed Family.inet6 spec spec_valid (omega arith)

new_udp_packet-parsed_example :
    (b : Built) × (new_udp_packet Family.inet Direction.outbound ip_info 4 53 5353 ≡ some (built b))
    × (parse_packet (packet_new b.packet.buffer) (length b.packet.buffer) PacketLayer.layer_3_ip
        ≡ ret packet_ok (record b.packet { direction = Direction.invalid }))
new_udp_packet-parsed_example =
    new_udp_packet-parsed Family.inet Direction.outbound ip_info 4 53 5353 (omega arith)
