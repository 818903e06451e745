-- ===== src/Parser/Safety/Rules.antt =====
-- A postcondition for parses that excludes faults and lack of fuel, with a rule for each construct.
use tcp_fuzz.Prelude.{ℕ, ◌+◌, ◌≤◌, ◌<◌, ◌≡◌, refl, inl, inr, arith, tests}
use tcp_fuzz.Prelude.{Bool, true, false, [], ◌∷◌, ◌++◌, be16}
use tcp_fuzz.Prelude.{ltb, ◌==◌, length, length-append, get_elem?-some, All-append}
use tcp_fuzz.Prelude.{if◌then◌else◌, le→ltb, ==→ne, Bool-cases, add32}
use mathlib.Core.Path.{subst}
use tcp_fuzz.Packet.{HeaderType, Packet}
use tcp_fuzz.Packet.Layout.{IsLaidOut, IsContiguous-append, IsInside, headers_end}
use tcp_fuzz.Packet.Layout.{headers_end-append, header_at, set_last_total-append}
use tcp_fuzz.Parser.Outcome.{ParseError, ParseResult, Outcome, ret, fault, out_of_fuel}
use tcp_fuzz.Parser.Outcome.{load8, load16, assert, bad, packet_bad, and_then}
use tcp_fuzz.Parser.Layer4.{append_or_bad}

-- The parse returns, and what it returns satisfies `P`.
pub data Returns (P : ParseResult → Packet → Type 0) : Outcome → Type 0 where
  returns : {r : ParseResult} {packet : Packet} → P r packet → Returns P (ret r packet)

pub Returns-if :
    (P : ParseResult → Packet → Type 0) (b : Bool) (x y : Outcome)
    → (b ≡ true → Returns P x)
    → (b ≡ false → Returns P y)
    → Returns P (if b then x else y)
Returns-if P true x y f g = f refl
Returns-if P false x y f g = g refl

pub Returns-assert :
    (P : ParseResult → Packet → Type 0) (b : Bool) (x : Outcome)
    → b ≡ true
    → Returns P x
    → Returns P (assert b x)
unfolding assert
Returns-assert P true x e h = h
Returns-assert P false x e h = cc

pub Returns-load8 :
    (P : ParseResult → Packet → Type 0) (packet : Packet) (i : ℕ) (rest : ℕ → Outcome)
    → i < length packet.buffer
    → ((b : ℕ) → Returns P (rest b))
    → Returns P (load8 packet i rest)
unfolding load8
Returns-load8 P packet i rest h k =
    let (b, e) = get_elem?-some packet.buffer i h in rw (e, load8) (k b)

pub Returns-load16 :
    (P : ParseResult → Packet → Type 0) (packet : Packet) (i : ℕ) (rest : ℕ → Outcome)
    → i + 1 < length packet.buffer
    → ((v : ℕ) → Returns P (rest v))
    → Returns P (load16 packet i rest)
unfolding load16
Returns-load16 P packet i rest h k =
    Returns-load8 P packet i _ (omega arith)
      λ hi. Returns-load8 P packet (i + 1) _ h λ lo. k (be16 hi lo)

pub Returns-and_then :
    (P Q : ParseResult → Packet → Type 0) (f : Packet → Packet) {x : Outcome}
    → ((r : ParseResult) (packet : Packet) → P r packet → Q r (f packet))
    → Returns P x
    → Returns Q (and_then x f)
unfolding and_then
Returns-and_then P Q f g (returns {r} {packet} h) = returns (g r packet h)

Returns-inv :
    (P : ParseResult → Packet → Type 0) (r : ParseResult) (packet : Packet) {x : Outcome}
    → Returns P x
    → x ≡ ret r packet
    → P r packet
Returns-inv P r packet (returns {r = r'} {packet = packet'} h) e = subst (λ o. Post o) e h
  where
    Post : Outcome → Type 0
    Post (ret q last) = P q last
    Post fault = Unit
    Post out_of_fuel = Unit

pub Returns-ret :
    (P : ParseResult → Packet → Type 0) (r : ParseResult) (packet : Packet)
    → Returns P (ret r packet)
    → P r packet
Returns-ret P r packet h = Returns-inv P r packet h refl

pub Returns-imp :
    (P Q : ParseResult → Packet → Type 0) {x : Outcome}
    → ((r : ParseResult) (packet : Packet) → P r packet → Q r packet)
    → Returns P x
    → Returns Q x
Returns-imp P Q g (returns {r} {packet} h) = returns (g r packet h)

-- The parser has come to offset `p`: all before it is link-layer header or listed headers.
pub record IsAt (end p : ℕ) (packet : Packet) : Type 0 where
  pub laid_out : IsLaidOut end packet
  pub here : packet.l2_header_bytes + packet.ip_bytes ≡ p
  pub ends : headers_end packet.l2_header_bytes packet.headers ≡ p
  pub before : p ≤ end

-- The packet after a header of `n` bytes with `total` bytes in all was appended at `p`.
unfoldable pub with_header : Packet → HeaderType → ℕ → ℕ → ℕ → Packet
with_header packet type n total p = record packet {
  ip_bytes = add32 packet.ip_bytes n;
  headers = packet.headers ++ (header_at type n total p ∷ []);
}

pub with_header-IsAt :
    (packet : Packet) (type : HeaderType) (n total p end : ℕ)
    → IsAt end p packet
    → length packet.headers < 6
    → n ≤ total
    → p + total ≤ end
    → IsAt end (p + n) (with_header packet type n total p)
unfolding with_header
with_header-IsAt packet type n total p end at few le fits = record {
  laid_out = record {
    room = v.room;
    sized = v.sized;
    small = v.small;
    ipv4_room = v.ipv4_room;
    ipv6_room = v.ipv6_room;
    tcp_room = v.tcp_room;
    udp_room = v.udp_room;
    icmpv4_room = v.icmpv4_room;
    icmpv6_room = v.icmpv6_room;
    few = omega (arith, length-append {0} packet.headers (header_at type n total p ∷ []));
    contiguous =
        IsContiguous-append _ packet.headers (header_at type n total p) v.contiguous (omega arith);
    inside = All-append (IsInside end) packet.headers _ v.inside ((le, fits), tt);
  };
  here = omega arith;
  ends =
      omega (
        arith,
        headers_end-append packet.l2_header_bytes packet.headers (header_at type n total p),
      );
  before = omega arith;
}
  where
    open at use {laid_out as v}

set_total-append :
    (packet : Packet) (type : HeaderType) (n total p end : ℕ)
    → IsAt end p packet
    → length packet.headers < 6
    → n ≤ total
    → p + total ≤ end
    → (rest : Packet → Outcome)
    → append_or_bad packet type n total rest ≡ rest (with_header packet type n total p)
unfolding append_or_bad with_header
set_total-append packet type n total p end at few le fits rest = rw (
  count,
  room,
  set_last_total-append packet.headers
      (header_at type n 0 (add32 packet.l2_header_bytes packet.ip_bytes)) total,
  here,
  append_or_bad,
)
  where
    open at use {laid_out as v}

    count : (length packet.headers == 6) ≡ false
    count = ground arith

    room : ltb packet.buffer_bytes (add32 packet.ip_bytes n) ≡ false
    room = le→ltb _ _ (omega arith)

    here : add32 packet.l2_header_bytes packet.ip_bytes ≡ p
    here = omega arith

append-full :
    (packet : Packet) (type : HeaderType) (n total : ℕ) (rest : Packet → Outcome)
    → length packet.headers ≡ 6
    → append_or_bad packet type n total rest ≡ bad ParseError.too_many_nested_headers packet
unfolding append_or_bad
append-full packet type n total rest e = rw (e, append_or_bad)

-- A header that fits is appended, unless the table is full.
pub Returns-append :
    (P : ParseResult → Packet → Type 0) (packet : Packet) (type : HeaderType) (n total p end : ℕ)
    (rest : Packet → Outcome)
    → IsAt end p packet
    → n ≤ total
    → p + total ≤ end
    → P (packet_bad ParseError.too_many_nested_headers) packet
    → (length packet.headers < 6 → Returns P (rest (with_header packet type n total p)))
    → Returns P (append_or_bad packet type n total rest)
Returns-append P packet type n total p end rest at le fits full k =
    elim (Bool-cases (length packet.headers == 6)) [
      | inl e ↦ rw (append-full packet type n total rest (omega (tests))) (returns full)
      | inr e ↦
          let few : length packet.headers < 6 = omega (tests, at.laid_out.few, ==→ne _ _ e) in
          rw (set_total-append packet type n total p end at few le fits rest) (k few)
    ]
