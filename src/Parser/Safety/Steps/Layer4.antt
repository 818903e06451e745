-- ===== src/Parser/Safety/Steps/Layer4.antt =====
-- The layer 4 functions of packet_parser.c, entered at a position with `layer4_bytes` bytes left in
-- the datagram.
use tcp_fuzz.Prelude.{ℕ, ◌+◌, ◌*◌, ◌/◌, ◌%◌, ◌≤◌, ◌<◌, ◌≡◌, refl, arith, tests, [], ◌∷◌}
use tcp_fuzz.Prelude.{false, ◌&&◌, not, Option, none, some, length, ltb, leb, ◌==◌}
use tcp_fuzz.Prelude.{ltb→le, le→leb, length-append}
use tcp_fuzz.Packet.{Packet, HeaderType}
use tcp_fuzz.Packet.Layout.{IsLaidOut, header_at}
use tcp_fuzz.Parser.Outcome.{
  ParseError, ParseResult, Outcome, ret, packet_ok, packet_bad, assert, bad, load16,
}
use tcp_fuzz.Parser.Layer3.{is_null}
use tcp_fuzz.Parser.Layer4.{
  parse_tcp, parse_udp, parse_icmpv4, parse_icmpv6, parse_gre, gre_len, bit, append_or_bad,
}
use tcp_fuzz.Parser.Safety.Rules.{Returns, returns, Returns-if, Returns-assert, Returns-load8}
use tcp_fuzz.Parser.Safety.Rules.{Returns-load16, Returns-append, Returns-imp, IsAt, with_header}
use tcp_fuzz.Parser.Safety.Rules.{with_header-IsAt}

-- A layer 4 header was found: `packet_payload` has a case for the packet.
abbrev pub HasLayer4 : Packet → Type 0
HasLayer4 packet =
    (is_null packet.tcp && (is_null packet.udp && (is_null packet.icmpv4 && is_null packet.icmpv6)))
    ≡ false

-- What a parse from `old` returns.
pub record Parsed (end : ℕ) (old : Packet) (r : ParseResult) (packet : Packet) : Type 0 where
  pub laid_out : IsLaidOut end packet
  pub same_buffer : packet.buffer ≡ old.buffer
  pub same_l2 : packet.l2_header_bytes ≡ old.l2_header_bytes
  pub layer4 : r ≡ packet_ok → HasLayer4 packet

-- A packet that `old` became with its bytes untouched.
abbrev pub SameBytes : Packet → Packet → Type 0
SameBytes old packet = (packet.buffer ≡ old.buffer) × (packet.l2_header_bytes ≡ old.l2_header_bytes)

pub bad-Parsed :
    (end p : ℕ) (e : ParseError) (old packet : Packet)
    → SameBytes old packet
    → IsAt end p packet
    → Parsed end old (packet_bad e) packet
bad-Parsed end p e old packet same at = record {
  laid_out = at.laid_out;
  same_buffer = same.0;
  same_l2 = same.1;
  layer4 = λ h. cc;
}

pub stopped :
    (end p : ℕ) (old packet : Packet) (e : ParseError)
    → SameBytes old packet
    → IsAt end p packet
    → Returns (Parsed end old) (bad e packet)
stopped end p old packet e same at = returns (bad-Parsed end p e old packet same at)

-- The end of a layer 4 function: its header is appended, and the contents end in the packet.
append_last :
    (old packet : Packet) (type : HeaderType) (n total p end : ℕ)
    → SameBytes old packet
    → HasLayer4 packet
    → IsAt end p packet
    → n ≤ total
    → p + total ≤ end
    → Returns (Parsed end old) (
        append_or_bad packet type n total
          λ packet'. assert (leb (p + total) end) (ret packet_ok packet'))
unfolding with_header
append_last old packet type n total p end same l4 at le fits =
    Returns-append _ packet type n total p end
      (λ packet'. assert (leb (p + total) end) (ret packet_ok packet')) at le fits
      (bad-Parsed end p _ old packet same at)
      λ few.
        let next = with_header-IsAt packet type n total p end at few le fits in
        Returns-assert _ _ _ (le→leb _ _ fits) (
          returns {r = packet_ok} (record {
            laid_out = next.laid_out;
            same_buffer = same.0;
            same_l2 = same.1;
            layer4 = λ _. l4;
          }))

-- Setting the pointer to the header that is parsed keeps the position.
module _ (packet : Packet) (p n end : ℕ) (at : IsAt end p packet) (left : p + n ≤ end) where
  tcp-IsAt : 20 ≤ n → IsAt end p (record packet { tcp = some p })
  tcp-IsAt h = grind (arith, at)

  udp-IsAt : 8 ≤ n → IsAt end p (record packet { udp = some p })
  udp-IsAt h = grind (arith, at)

  icmpv4-IsAt : 8 ≤ n → IsAt end p (record packet { icmpv4 = some p })
  icmpv4-IsAt h = grind (arith, at)

  icmpv6-IsAt : 8 ≤ n → IsAt end p (record packet { icmpv6 = some p })
  icmpv6-IsAt h = grind (arith, at)

  pub parse_tcp-Parsed : Returns (Parsed end packet) (parse_tcp packet p n end)
  unfolding parse_tcp
  parse_tcp-Parsed =
      Returns-if _ (ltb n 20) _ _ (λ _. stopped end p packet packet _ (refl, refl) at)
        λ big.
          let packet' = record packet { tcp = some p } in
          let at' : IsAt end p packet' = tcp-IsAt (ltb→le n 20 big) in
          Returns-load8 _ packet' (p + 12) _ (omega (tests, at.laid_out.room)) λ off.
            let len = off / 16 * 4 in
            Returns-if _ (ltb len 20) _ _ (λ _. stopped end p packet packet' _ (refl, refl) at')
              λ _.
                Returns-if _ (ltb n len) _ _ (λ _. stopped end p packet packet' _ (refl, refl) at')
                  λ fits.
                    append_last packet packet' HeaderType.tcp len n p end (refl, refl) refl at'
                      (ltb→le n len fits) left

  pub parse_udp-Parsed : Returns (Parsed end packet) (parse_udp packet p n end)
  unfolding parse_udp
  parse_udp-Parsed =
      Returns-if _ (ltb n 8) _ _ (λ _. stopped end p packet packet _ (refl, refl) at)
        λ big.
          let packet' = record packet { udp = some p } in
          let at' : IsAt end p packet' = udp-IsAt (ltb→le n 8 big) in
          Returns-load16 _ packet' (p + 4) _ (omega (tests, at.laid_out.room)) λ len.
            Returns-if _ (ltb len 8) _ _ (λ _. stopped end p packet packet' _ (refl, refl) at')
              λ _.
                Returns-if _ (ltb len n) _ _ (λ _. stopped end p packet packet' _ (refl, refl) at')
                  λ _.
                    Returns-if _ (ltb n len) _ _
                      (λ _. stopped end p packet packet' _ (refl, refl) at')
                      λ _.
                        append_last packet packet' HeaderType.udp 8 n p end (refl, refl)
                          (null_tcp packet.tcp) at' (ltb→le n 8 big) left
    where
      null_tcp : (t : Option ℕ) → (is_null t && false) ≡ false
      null_tcp none = refl
      null_tcp (some p) = refl

  pub parse_icmpv4-Parsed : Returns (Parsed end packet) (parse_icmpv4 packet p n end)
  unfolding parse_icmpv4
  parse_icmpv4-Parsed =
      Returns-if _ (ltb n 8) _ _ (λ _. stopped end p packet packet _ (refl, refl) at)
        λ big.
          append_last packet (record packet { icmpv4 = some p }) HeaderType.icmpv4 8 n p end
            (refl, refl) (ground arith) (icmpv4-IsAt (ltb→le n 8 big)) (ltb→le n 8 big) left

  pub parse_icmpv6-Parsed : Returns (Parsed end packet) (parse_icmpv6 packet p n end)
  unfolding parse_icmpv6
  parse_icmpv6-Parsed =
      Returns-if _ (ltb n 8) _ _ (λ _. stopped end p packet packet _ (refl, refl) at)
        λ big.
          append_last packet (record packet { icmpv6 = some p }) HeaderType.icmpv6 8 n p end
            (refl, refl) (ground arith) (icmpv6-IsAt (ltb→le n 8 big)) (ltb→le n 8 big) left

  -- What GRE hands on to is a parse from the position behind the GRE header.
  pub parse_gre-Parsed :
      (next : Packet → ℕ → ℕ → ℕ → Outcome)
      → ((packet' : Packet) (q proto : ℕ)
          → IsAt end q packet'
          → length packet.headers < length packet'.headers
          → Returns (Parsed end packet') (next packet' proto q end))
      → Returns (Parsed end packet) (parse_gre next packet p n end)
  unfolding parse_gre gre_len with_header
  parse_gre-Parsed next inside =
      Returns-if _ (ltb n 4) _ _ (λ _. stopped end p packet packet _ (refl, refl) at)
        λ big. Returns-load8 _ packet (p + 1) _ (omega (tests, at.laid_out.room)) λ version.
          Returns-if _ (not (version % 8 == 0)) _ _
            (λ _. stopped end p packet packet _ (refl, refl) at)
            λ _. Returns-load8 _ packet p _ (omega (tests, at.laid_out.room)) λ flags.
              Returns-if _ (bit 64 flags) _ _ (λ _. stopped end p packet packet _ (refl, refl) at)
                λ _.
                  let len = gre_len flags in
                  Returns-if _ (ltb len 4) _ _ (λ _. stopped end p packet packet _ (refl, refl) at)
                    λ least.
                      Returns-if _ (ltb n len) _ _
                        (λ _. stopped end p packet packet _ (refl, refl) at)
                        λ fits. Returns-assert _ _ _ (le→leb _ _ left) (
                          Returns-append _ packet HeaderType.gre len n p end
                            (λ packet'.
                              assert (leb (p + len) end)
                                (load16 packet' (p + 2) λ proto. next packet' proto (p + len) end))
                            at (ltb→le n len fits) left
                            (bad-Parsed end p _ packet packet (refl, refl) at)
                            λ few.
                              let packet' = with_header packet HeaderType.gre len n p in
                              let at' =
                                with_header-IsAt packet HeaderType.gre len n p end at few
                                  (ltb→le n len fits) left in
                              Returns-assert _ _ _ (le→leb _ _ at'.before) (
                                Returns-load16 _ packet' (p + 2) _ (omega (tests, at.laid_out.room))
                                  λ proto.
                                    Returns-imp _ _
                                      (λ r last h. record {
                                        laid_out = h.laid_out;
                                        same_buffer = h.same_buffer;
                                        same_l2 = h.same_l2;
                                        layer4 = h.layer4;
                                      })
                                      (inside packet' (p + len) proto at' (
                                        omega (
                                          arith,
                                          length-append {0} packet.headers
                                              (header_at HeaderType.gre len n p ∷ []),
                                        )))))
