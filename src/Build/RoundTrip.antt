-- ===== src/Build/RoundTrip.antt =====
-- new_tcp_packet and new_udp_packet, and the parser on what they build.
use tcp_fuzz.Prelude.{◌^◌, ◌<◌, ◌≡◌}
use tcp_fuzz.Prelude.{length, some}
use tcp_fuzz.Packet.{Direction, packet_new}
use tcp_fuzz.Parser.Outcome.{ret, packet_ok}
use tcp_fuzz.Parser.Entry.{PacketLayer, parse_packet}
use tcp_fuzz.Build.{Family, TcpSpec, Built, new_tcp_packet, built}
use tcp_fuzz.Build.Frames.{IsTcpSpec, tcp_total, built_of}
use tcp_fuzz.Build.Ipv4.{tcp4, new_tcp4, parse_tcp4}
use tcp_fuzz.Build.Ipv6.{tcp6, new_tcp6, parse_tcp6}

-- The words of a script for a TCP packet that pass the tests of new_tcp_packet, for IPv4 or IPv6 and a
-- total length that has 16 bits: new_tcp_packet builds a packet, and parse_packet accepts its bytes and finds in them
-- the headers, pointers and lengths of the packet built. Only the direction is not in the bytes.
pub new_tcp_packet-parsed :
    (family : Family) (spec : TcpSpec)
    → IsTcpSpec spec
    → tcp_total family spec < 2 ^ 16
    → (b : Built) × (new_tcp_packet family spec ≡ some (built b))
      × (parse_packet (packet_new b.packet.buffer) (length b.packet.buffer) PacketLayer.layer_3_ip
          ≡ ret packet_ok (record b.packet { direction = Direction.invalid }))
new_tcp_packet-parsed Family.inet spec h small =
    (built_of spec (tcp4 spec spec.direction), new_tcp4 spec h small, parse_tcp4 spec h small)
new_tcp_packet-parsed Family.inet6 spec h small =
    (built_of spec (tcp6 spec spec.direction), new_tcp6 spec h small, parse_tcp6 spec h small)
