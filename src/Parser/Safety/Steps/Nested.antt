-- ===== src/Parser/Safety/Steps/Nested.antt =====
-- parse_ipv4, parse_ipv6 and parse_mpls of packet_parser.c. `depth` bounds the headers that may still be nested: at
-- most seven calls, since each has appended a header and the table has room for six.
use tcp_fuzz.Prelude.{ℕ, zero, suc, ◌+◌, ◌-◌, ◌*◌, ◌/◌, ◌%◌, ◌≤◌, ◌<◌, ◌≡◌, refl, arith, tests}
use tcp_fuzz.Prelude.{Bool, false, ◌&&◌, not, Option, some, length, ltb, ◌==◌}
use tcp_fuzz.Prelude.{if◌then◌else◌, ltb→le, le→leb, length-append, [], ◌∷◌}
use tcp_fuzz.Packet.{Packet, HeaderType}
use tcp_fuzz.Packet.Layout.{IsLaidOut, header_at}
use tcp_fuzz.Parser.Outcome.{ParseError, ParseResult, Outcome, packet_bad}
use tcp_fuzz.Parser.Outcome.{and_then}
use tcp_fuzz.Parser.Layer3.{Nested, Parse, is_null, parse_layer4, parse_layer3_packet_by_proto}
use tcp_fuzz.Parser.Layer3.{parse_ipv4, parse_ipv6, parse_mpls, mpls_stack}
use tcp_fuzz.Parser.Layer3.{finish_ipv4, finish_ipv6}
use tcp_fuzz.Parser.Safety.Rules.{Returns, returns, Returns-if, Returns-assert, Returns-load8}
use tcp_fuzz.Parser.Safety.Rules.{Returns-load16, Returns-append, Returns-imp, Returns-and_then}
use tcp_fuzz.Parser.Safety.Rules.{IsAt, with_header, with_header-IsAt}
use tcp_fuzz.Parser.Safety.Steps.Layer4.{Parsed, bad-Parsed}
use tcp_fuzz.Parser.Safety.Steps.Layer3.{Found, Nests, bad-Found}
use tcp_fuzz.Parser.Safety.Steps.Layer3.{layer3_packet-Found, layer4-Parsed}

module _ (end depth : ℕ) (nested : Nested → Parse) (nests : Nests end depth nested) where
  -- What follows the IPv4 header, with the header appended.
  ipv4_rest :
      (packet : Packet) (p n total protocol : ℕ) (is_outer : Bool)
      → IsAt end p packet
      → 7 ≤ length packet.headers + suc depth
      → length packet.headers < 6
      → 20 ≤ n
      → n ≤ total
      → p + total ≤ end
      → let packet' = with_header packet HeaderType.ipv4 n total p in
        Returns (Found end packet) (
          and_then
            (parse_layer4 nested
              (parse_layer3_packet_by_proto nested)
              packet'
              (p + n)
              protocol
              (total - n)
              end)
            (finish_ipv4 is_outer total p))
  unfolding finish_ipv4 with_header
  ipv4_rest packet p n total protocol is_outer at deep few wide le fits =
      let packet' = with_header packet HeaderType.ipv4 n total p in
      Returns-and_then (Parsed end packet') (Found end packet) (finish_ipv4 is_outer total p)
        (λ r last h. record {
          parsed = record {
            laid_out = primary last h.laid_out;
            same_buffer = h.same_buffer;
            same_l2 = h.same_l2;
            layer4 = h.layer4;
          };
          layer3 = λ _. found last.ipv4 last.ipv6;
        })
        (layer4-Parsed end depth nested nests packet' (p + n) protocol (total - n)
          (with_header-IsAt packet HeaderType.ipv4 n total p end at few le fits)
          (omega (
            arith,
            deep,
            length-append {0} packet.headers (header_at HeaderType.ipv4 n total p ∷ []),
          ))
          (omega arith))
    where
      primary :
          (last : Packet) → IsLaidOut end last → IsLaidOut end (finish_ipv4 is_outer total p last)
      primary last v = ground arith

      found :
          (a b : Option ℕ)
          → (is_null (if is_null a && is_null b then some p else a) && is_null b) ≡ false
      found a b = ground arith

  ipv6_rest :
      (packet : Packet) (p payload_len next_header : ℕ) (is_outer : Bool)
      → IsAt end p packet
      → 7 ≤ length packet.headers + suc depth
      → length packet.headers < 6
      → p + (40 + payload_len) ≤ end
      → let packet' = with_header packet HeaderType.ipv6 40 (40 + payload_len) p in
        Returns (Found end packet) (
          and_then
            (parse_layer4 nested
              (parse_layer3_packet_by_proto nested)
              packet'
              (p + 40)
              next_header
              (40 + payload_len - 40)
              end)
            (finish_ipv6 is_outer (40 + payload_len) p))
  unfolding finish_ipv6 with_header
  ipv6_rest packet p payload_len next_header is_outer at deep few fits =
      let total = 40 + payload_len in
      let packet' = with_header packet HeaderType.ipv6 40 total p in
      Returns-and_then (Parsed end packet') (Found end packet) (finish_ipv6 is_outer total p)
        (λ r last h. record {
          parsed = record {
            laid_out = primary last h.laid_out;
            same_buffer = h.same_buffer;
            same_l2 = h.same_l2;
            layer4 = h.layer4;
          };
          layer3 = λ _. found last.ipv4 last.ipv6;
        })
        (layer4-Parsed end depth nested nests packet' (p + 40) next_header (total - 40)
          (with_header-IsAt packet HeaderType.ipv6 40 total p end at few (omega arith) fits)
          (omega (
            arith,
            deep,
            length-append {0} packet.headers (header_at HeaderType.ipv6 40 total p ∷ []),
          ))
          (omega arith))
    where
      primary :
          (last : Packet)
          → IsLaidOut end last
          → IsLaidOut end (finish_ipv6 is_outer (40 + payload_len) p last)
      primary last v = ground arith

      found :
          (a b : Option ℕ)
          → (is_null a && is_null (if is_null a && is_null b then some p else b)) ≡ false
      found a b = ground arith

  pub parse_ipv4-Found :
      (packet : Packet) (p : ℕ)
      → IsAt end p packet
      → 7 ≤ length packet.headers + suc depth
      → Returns (Found end packet) (parse_ipv4 nested packet p end)
  unfolding parse_ipv4 with_header
  parse_ipv4-Found packet p at deep =
      Returns-load8 _ packet p _ (omega (arith, at.laid_out.room, at.before)) λ b.
        let n = b % 16 * 4 in
        Returns-if _ (ltb n 20) _ _ (λ _. bad-Found end p packet _ at)
          λ wide.
            Returns-if _ (ltb end (p + n)) _ _ (λ _. bad-Found end p packet _ at)
              λ whole. Returns-load16 _ packet (p + 2) _ (omega (tests, at.laid_out.room)) λ total.
                Returns-if _ (ltb end (p + total)) _ _ (λ _. bad-Found end p packet _ at)
                  λ fits.
                    Returns-if _ (ltb total n) _ _ (λ _. bad-Found end p packet _ at)
                      λ le.
                        Returns-load16 _ packet (p + 6) _ (omega (tests, at.laid_out.room)) λ frag.
                          Returns-if _ (frag / 0x2000 % 2 == 1) _ _
                            (λ _. bad-Found end p packet _ at)
                            λ _.
                              Returns-if _ (not (frag % 0x2000 == 0)) _ _
                                (λ _. bad-Found end p packet _ at)
                                λ _.
                                  Returns-append _ packet HeaderType.ipv4 n total p end _ at
                                    (ltb→le total n le) (ltb→le end (p + total) fits)
                                    (record {
                                      parsed = bad-Parsed end p _ packet packet (refl, refl) at;
                                      layer3 = λ h. cc;
                                    })
                                    λ few.
                                      Returns-assert _ _ _ (le→leb _ _ (ltb→le end (p + n) whole)) (
                                        Returns-load8 _
                                          (with_header packet HeaderType.ipv4 n total p) (p + 9) _
                                          (in_range n wide whole)
                                          λ protocol.
                                            ipv4_rest packet p n total protocol
                                              (packet.ip_bytes == 0) at deep few (ltb→le n 20 wide)
                                              (ltb→le total n le) (ltb→le end (p + total) fits))
    where
      in_range : (n : ℕ) → ltb n 20 ≡ false → ltb end (p + n) ≡ false → p + 9 < length packet.buffer
      in_range n wide whole = omega (tests, at.laid_out.room)

  pub parse_ipv6-Found :
      (packet : Packet) (p : ℕ)
      → IsAt end p packet
      → 7 ≤ length packet.headers + suc depth
      → Returns (Found end packet) (parse_ipv6 nested packet p end)
  unfolding parse_ipv6 with_header
  parse_ipv6-Found packet p at deep =
      Returns-if _ (ltb end (p + 40)) _ _ (λ _. bad-Found end p packet _ at)
        λ whole. Returns-load16 _ packet (p + 4) _ (omega (tests, at.laid_out.room)) λ payload_len.
          let total = 40 + payload_len in
          Returns-if _ (ltb end (p + total)) _ _ (λ _. bad-Found end p packet _ at)
            λ fits. Returns-assert _ _ _ (le→leb _ _ (omega arith)) (
              Returns-append _ packet HeaderType.ipv6 40 total p end _ at (omega arith)
                (ltb→le end (p + total) fits)
                (record {
                  parsed = bad-Parsed end p _ packet packet (refl, refl) at;
                  layer3 = λ h. cc;
                })
                λ few. Returns-assert _ _ _ (le→leb _ _ (ltb→le end (p + 40) whole)) (
                  Returns-load8 _ (with_header packet HeaderType.ipv6 40 total p) (p + 6) _
                    (in_range whole)
                    λ next_header.
                      ipv6_rest packet p payload_len next_header (packet.ip_bytes == 0) at deep few
                        (ltb→le end (p + total) fits)))
    where
      in_range : ltb end (p + 40) ≡ false → p + 6 < length packet.buffer
      in_range whole = omega (tests, at.laid_out.room)

  -- The loop over the label stack stops inside the packet, at as many bytes as it counted.
  mpls_stack-Returns :
      (P : ParseResult → Packet → Type 0) (packet : Packet) (rest : ℕ → ℕ → Outcome)
      (start rounds p n : ℕ)
      → end < length packet.buffer
      → P (packet_bad ParseError.mpls_entry_overflows_packet) packet
      → ((q m : ℕ) → q ≡ start + m → q ≤ end → Returns P (rest q m))
      → p ≡ start + n
      → p ≤ end
      → end < p + rounds
      → Returns P (mpls_stack rounds packet p n end rest)
  unfolding mpls_stack
  mpls_stack-Returns P packet rest start zero p n room stop k e le enough = absurd (omega arith)
  mpls_stack-Returns P packet rest start (suc rounds) p n room stop k e le enough =
      Returns-if P (ltb end (p + 4)) _ _ (λ _. returns stop)
        λ fits. Returns-load8 P packet (p + 2) _ (omega tests) λ b.
          Returns-if P (not (b % 2 == 1) && ltb (p + 4) end) _ _
            (λ _.
              mpls_stack-Returns P packet rest start rounds (p + 4) (n + 4) room stop k
                (omega arith) (ltb→le end (p + 4) fits) (omega arith))
            λ _. k (p + 4) (n + 4) (omega arith) (ltb→le end (p + 4) fits)

  pub parse_mpls-Found :
      (packet : Packet) (p : ℕ)
      → IsAt end p packet
      → 7 ≤ length packet.headers + suc depth
      → Returns (Found end packet) (parse_mpls nested packet p end)
  unfolding parse_mpls with_header
  parse_mpls-Found packet p at deep =
      mpls_stack-Returns _ packet _ p (suc (end - p)) p 0 at.laid_out.room full
        (λ q n e le. Returns-assert _ _ _ (le→leb _ _ (omega arith)) (
          Returns-append _ packet HeaderType.mpls n (end - p) p end _ at (omega arith)
            (omega (arith, at.before)) full'
            λ few.
              let packet' = with_header packet HeaderType.mpls n (end - p) p in
              let at' : IsAt end (p + n) packet' =
                with_header-IsAt packet HeaderType.mpls n (end - p) p end at few (omega arith)
                  (omega (arith, at.before)) in
              Returns-assert _ _ _ (le→leb _ _ le) (
                Returns-imp _ _
                  (λ r last h. record {
                    parsed = record {
                      laid_out = h.parsed.laid_out;
                      same_buffer = h.parsed.same_buffer;
                      same_l2 = h.parsed.same_l2;
                      layer4 = h.parsed.layer4;
                    };
                    layer3 = h.layer3;
                  })
                  (layer3_packet-Found end depth nested nests packet' q (rw e at') (
                    omega (
                      arith,
                      deep,
                      length-append {0} packet.headers
                          (header_at HeaderType.mpls n (end - p) p ∷ []),
                    ))))))
        (omega arith) at.before (omega arith)
    where
      full : Found end packet (packet_bad ParseError.mpls_entry_overflows_packet) packet
      full = record { parsed = bad-Parsed end p _ packet packet (refl, refl) at; layer3 = λ h. cc }

      full' : Found end packet (packet_bad ParseError.too_many_nested_headers) packet
      full' = record { parsed = bad-Parsed end p _ packet packet (refl, refl) at; layer3 = λ h. cc }
