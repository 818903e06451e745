-- ===== src/Parser/Safety/Whole.antt =====
-- parse_packet as a whole.
use tcp_fuzz.Prelude.{ℕ, zero, suc, ◌+◌, ◌≤◌, ◌<◌, ◌^◌, ◌≡◌, refl, arith, tests}
use tcp_fuzz.Prelude.{ltb, le→leb, length, List}
use tcp_fuzz.Packet.{Packet, packet_new}
use tcp_fuzz.Packet.Layout.{IsLaidOut}
use tcp_fuzz.Parser.Outcome.{ParseError, packet_ok, packet_bad, ret}
use tcp_fuzz.Parser.Layer3.{Nested}
use tcp_fuzz.Parser.Entry.{PacketLayer, parse_nested, parse_layer2_packet, parse_packet, max_depth}
use tcp_fuzz.Parser.Safety.Rules.{Returns, returns, Returns-if, Returns-assert, Returns-load16}
use tcp_fuzz.Parser.Safety.Rules.{Returns-imp, Returns-ret}
use tcp_fuzz.Parser.Safety.Rules.{IsAt}
use tcp_fuzz.Parser.Safety.Steps.Layer4.{HasLayer4}
use tcp_fuzz.Parser.Safety.Steps.Layer3.{
  Found, HasLayer3, Nests, by_proto-Found, layer3_packet-Found,
}
use tcp_fuzz.Parser.Safety.Steps.Nested.{parse_ipv4-Found, parse_ipv6-Found, parse_mpls-Found}

parse_nested-Nests : (end depth : ℕ) → Nests end depth (parse_nested depth)
unfolding parse_nested
parse_nested-Nests end zero kind packet p at deep = absurd (omega (arith, at.laid_out.few, deep))
parse_nested-Nests end (suc depth) Nested.ipv4 packet p at deep =
    parse_ipv4-Found end depth (parse_nested depth) (parse_nested-Nests end depth) packet p at deep
parse_nested-Nests end (suc depth) Nested.ipv6 packet p at deep =
    parse_ipv6-Found end depth (parse_nested depth) (parse_nested-Nests end depth) packet p at deep
parse_nested-Nests end (suc depth) Nested.mpls packet p at deep =
    parse_mpls-Found end depth (parse_nested depth) (parse_nested-Nests end depth) packet p at deep

-- A packet fresh from `packet_new`, with some room behind the bytes to parse.
fresh-IsAt :
    (bytes : List ℕ) (in_bytes l2 : ℕ)
    → in_bytes < length bytes
    → length bytes < 2 ^ 30
    → l2 ≤ in_bytes
    → IsAt in_bytes l2 (record (packet_new bytes) { l2_header_bytes = l2 })
fresh-IsAt bytes in_bytes l2 room small le = ground arith

-- Received bytes that are parsed from the start of a buffer with room behind them.
module _ (bytes : List ℕ) (in_bytes : ℕ) (room : in_bytes < length bytes)
    (small : length bytes < 2 ^ 30) where
  parse_packet-Found :
      (layer : PacketLayer)
      → Returns
          (λ r packet.
            IsLaidOut in_bytes packet
            × (packet.buffer ≡ bytes)
            × (r ≡ packet_ok → HasLayer3 packet × HasLayer4 packet))
          (parse_packet (packet_new bytes) in_bytes layer)
  unfolding parse_packet parse_layer2_packet
  parse_packet-Found PacketLayer.layer_3_ip = Returns-assert _ _ _ (le→leb _ _ (omega arith)) (
      Returns-imp (Found in_bytes (packet_new bytes)) _
        (λ r packet h.
          (h.parsed.laid_out, h.parsed.same_buffer, λ e. (h.layer3 e, h.parsed.layer4 e)))
        (layer3_packet-Found in_bytes max_depth (parse_nested max_depth)
          (parse_nested-Nests in_bytes max_depth) (packet_new bytes) 0
          (fresh-IsAt bytes in_bytes 0 room small (omega arith)) (omega arith)))
  parse_packet-Found PacketLayer.layer_2_ethernet =
      let packet' = record (packet_new bytes) { l2_header_bytes = 14 } in
      Returns-assert _ _ _ (le→leb _ _ (omega arith)) (
        Returns-if _ (ltb in_bytes (0 + 14)) _ _
          (λ _.
            returns {r = packet_bad ParseError.ethernet_header_overflows_packet}
              ((fresh-IsAt bytes in_bytes 0 room small (omega arith)).laid_out, refl, λ e. cc))
          λ long. Returns-load16 _ packet' (0 + 12) _ (omega tests) λ ether_type.
            Returns-imp (Found in_bytes packet') _
              (λ r packet h.
                (h.parsed.laid_out, h.parsed.same_buffer, λ e. (h.layer3 e, h.parsed.layer4 e)))
              (by_proto-Found in_bytes max_depth (parse_nested max_depth)
                (parse_nested-Nests in_bytes max_depth) packet' (0 + 14) ether_type
                (fresh-IsAt bytes in_bytes 14 room small (omega tests)) (omega arith)))

  -- On any bytes whatever, if the buffer has at least one byte more than is to be parsed and less than
  -- 2^30 bytes, parse_packet
  -- returns: it reads nothing outside the buffer, no `assert` fails, and a depth of seven nested
  -- headers is enough. The packet that it leaves, also on an error, has the bytes that were there;
  -- at most six headers, one right behind the other from the end of the link-layer header, each
  -- no longer than it and its contents together, which end inside the bytes that were parsed; and
  -- the pointers to the IP and layer 4 headers leave room for the fixed part of these.
  pub parse_packet-IsLaidOut :
      (layer : PacketLayer)
      → Returns
          (λ r packet. IsLaidOut in_bytes packet × (packet.buffer ≡ bytes))
          (parse_packet (packet_new bytes) in_bytes layer)
  parse_packet-IsLaidOut layer =
      Returns-imp _ _ (λ r packet h. (h.0, h.1)) (parse_packet-Found layer)

  -- Of less than 2^30 bytes, in a buffer with one byte of room behind those to parse: where parse_packet
  -- answers PACKET_OK, the packet has an IP header and a TCP, UDP
  -- or ICMP header: packet_address_family, packet_ip_protocol and packet_payload have a case for it.
  pub parse_packet_ok-layers :
      (layer : PacketLayer) {packet : Packet}
      → parse_packet (packet_new bytes) in_bytes layer ≡ ret packet_ok packet
      → HasLayer3 packet × HasLayer4 packet
  parse_packet_ok-layers layer {packet} e =
      (Returns-ret _ packet_ok packet (rw e at (parse_packet-Found layer))).2 refl
