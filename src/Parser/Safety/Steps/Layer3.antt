-- ===== src/Parser/Safety/Steps/Layer3.antt =====
-- The layer 3 functions of packet_parser.c. `depth` bounds the headers that may still be nested: at
-- most seven calls, since each has appended a header and the table has room for six.
use tcp_fuzz.Prelude.{ℕ, ◌+◌, ◌/◌, ◌≤◌, ◌<◌, ◌≡◌, refl, arith}
use tcp_fuzz.Prelude.{false, ◌&&◌, ◌||◌, length, ltb, ◌==◌}
use tcp_fuzz.Packet.{Packet}
use tcp_fuzz.Parser.Outcome.{ParseError, ParseResult, packet_ok, packet_bad, bad}
use tcp_fuzz.Parser.Outcome.{packet_unknown_l4}
use tcp_fuzz.Parser.Layer3.{Nested, Parse, is_null, parse_layer4, parse_layer3_packet_by_proto}
use tcp_fuzz.Parser.Layer3.{parse_layer3_packet}
use tcp_fuzz.Parser.Safety.Rules.{Returns, returns, Returns-if, Returns-load8}
use tcp_fuzz.Parser.Safety.Rules.{Returns-imp}
use tcp_fuzz.Parser.Safety.Rules.{IsAt}
use tcp_fuzz.Parser.Safety.Steps.Layer4.{Parsed, bad-Parsed, parse_tcp-Parsed, parse_udp-Parsed}
use tcp_fuzz.Parser.Safety.Steps.Layer4.{parse_icmpv4-Parsed, parse_icmpv6-Parsed, parse_gre-Parsed}

-- A layer 3 header was found: `packet_address_family` is not AF_UNSPEC.
abbrev pub HasLayer3 : Packet → Type 0
HasLayer3 packet = (is_null packet.ipv4 && is_null packet.ipv6) ≡ false

-- What a parse of a layer 3 header and its contents returns.
pub record Found (end : ℕ) (old : Packet) (r : ParseResult) (packet : Packet) : Type 0 where
  pub parsed : Parsed end old r packet
  pub layer3 : r ≡ packet_ok → HasLayer3 packet

abbrev pub Nests : ℕ → ℕ → (Nested → Parse) → Type 0
Nests end depth nested =
    (kind : Nested) (packet : Packet) (p : ℕ)
    → IsAt end p packet
    → 7 ≤ length packet.headers + depth
    → Returns (Found end packet) (nested kind packet p end)

pub bad-Found :
    (end p : ℕ) (packet : Packet) (e : ParseError)
    → IsAt end p packet
    → Returns (Found end packet) (bad e packet)
bad-Found end p packet e at =
    returns {r = packet_bad e}
      (record { parsed = bad-Parsed end p e packet packet (refl, refl) at; layer3 = λ h. cc })

module _ (end depth : ℕ) (nested : Nested → Parse) (nests : Nests end depth nested) where
  pub by_proto-Found :
      (packet : Packet) (p proto : ℕ)
      → IsAt end p packet
      → 7 ≤ length packet.headers + depth
      → Returns (Found end packet) (parse_layer3_packet_by_proto nested packet proto p end)
  unfolding parse_layer3_packet_by_proto
  by_proto-Found packet p proto at deep =
      Returns-if _ (proto == 0x0800) _ _
        (λ _.
          Returns-if _ (ltb end (p + 20)) _ _ (λ _. bad-Found end p packet _ at)
            λ _. Returns-load8 _ packet p _ inside λ b.
              Returns-if _ (b / 16 == 4) _ _ (λ _. nests Nested.ipv4 packet p at deep)
                λ _. bad-Found end p packet _ at)
        λ _.
          Returns-if _ (proto == 0x86dd) _ _
            (λ _.
              Returns-if _ (ltb end (p + 40)) _ _ (λ _. bad-Found end p packet _ at)
                λ _. Returns-load8 _ packet p _ inside λ b.
                  Returns-if _ (b / 16 == 6) _ _ (λ _. nests Nested.ipv6 packet p at deep)
                    λ _. bad-Found end p packet _ at)
            λ _.
              Returns-if _ (proto == 0x8847 || proto == 0x8848) _ _
                (λ _. nests Nested.mpls packet p at deep)
                λ _. returns {r = packet_unknown_l4} (record {
                  parsed = record {
                    laid_out = at.laid_out;
                    same_buffer = refl;
                    same_l2 = refl;
                    layer4 = λ h. cc;
                  };
                  layer3 = λ h. cc;
                })
    where
      inside : p < length packet.buffer
      inside = omega (arith, at.laid_out.room, at.before)

  pub layer3_packet-Found :
      (packet : Packet) (p : ℕ)
      → IsAt end p packet
      → 7 ≤ length packet.headers + depth
      → Returns (Found end packet) (parse_layer3_packet nested packet p end)
  unfolding parse_layer3_packet
  layer3_packet-Found packet p at deep =
      Returns-if _ (ltb end (p + 20)) _ _ (λ _. bad-Found end p packet _ at)
        λ _. Returns-load8 _ packet p _ (omega (arith, at.laid_out.room, at.before)) λ b.
          Returns-if _ (b / 16 == 4) _ _ (λ _. nests Nested.ipv4 packet p at deep)
            λ _.
              Returns-if _ (b / 16 == 6) _ _ (λ _. nests Nested.ipv6 packet p at deep)
                λ _. bad-Found end p packet _ at

  pub layer4-Parsed :
      (packet : Packet) (p protocol n : ℕ)
      → IsAt end p packet
      → 7 ≤ length packet.headers + depth
      → p + n ≤ end
      → Returns
          (Parsed end packet)
          (parse_layer4 nested (parse_layer3_packet_by_proto nested) packet p protocol n end)
  unfolding parse_layer4
  layer4-Parsed packet p protocol n at deep left =
      Returns-if _ (protocol == 6) _ _ (λ _. parse_tcp-Parsed packet p n end at left)
        λ _.
          Returns-if _ (protocol == 17) _ _ (λ _. parse_udp-Parsed packet p n end at left)
            λ _.
              Returns-if _ (protocol == 1) _ _ (λ _. parse_icmpv4-Parsed packet p n end at left)
                λ _.
                  Returns-if _ (protocol == 58) _ _
                    (λ _. parse_icmpv6-Parsed packet p n end at left)
                    λ _.
                      Returns-if _ (protocol == 47) _ _
                        (λ _.
                          parse_gre-Parsed packet p n end at left
                            (parse_layer3_packet_by_proto nested)
                            λ packet' q proto at' more.
                              Returns-imp _ _ (λ r last h. h.parsed)
                                (by_proto-Found packet' q proto at' (omega (arith, deep, more))))
                        λ _.
                          Returns-if _ (protocol == 4) _ _ (λ _. inner Nested.ipv4)
                            λ _.
                              Returns-if _ (protocol == 41) _ _ (λ _. inner Nested.ipv6)
                                λ _. returns {r = packet_unknown_l4} (record {
                                  laid_out = at.laid_out;
                                  same_buffer = refl;
                                  same_l2 = refl;
                                  layer4 = λ h. cc;
                                })
    where
      inner : (kind : Nested) → Returns (Parsed end packet) (nested kind packet p end)
      inner kind = Returns-imp _ _ (λ r last h. h.parsed) (nests kind packet p at deep)
