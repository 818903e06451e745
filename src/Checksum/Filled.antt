-- ===== src/Checksum/Filled.antt =====
-- packet_checksum.c on IPv4 packets with a TCP header: lemmas for the generator.
use tcp_fuzz.Prelude.{
  ℕ, ◌+◌, ◌-◌, ◌*◌, ◌/◌, ◌%◌, ◌^◌, ◌≤◌, ◌<◌, ◌≡◌, refl, sym, ◌∙◌, ◌≢◌, arith, be16,
}
use tcp_fuzz.Prelude.{List, some, length, length-set, get_elem?, get_elem?-set_ne, set, take, drop}
use tcp_fuzz.Prelude.{lt→ltb, le→leb, gt→leb}
use tcp_fuzz.Packet.{Packet}
use tcp_fuzz.Checksum.Sum.{ipv4_checksum, tcp_udp_v4_checksum}
use tcp_fuzz.Checksum.Fill.{checksum_packet, checksum_ipv4_packet, checksum_ipv4_layer4, fill}
use tcp_fuzz.Checksum.Fill.{load_bytes, load_be16, store16}

-- The bytes of a packet were replaced: as many, and the same but for the two from `check` on.
pub record Rewritten (check : ℕ) (old : List ℕ) (bs : List ℕ) : Type 0 where
  pub same_length : length bs ≡ length old
  pub others : (i : ℕ) → i ≢ check → i ≢ check + 1 → get_elem? bs i ≡ get_elem? old i

store16-some :
    (packet : Packet) (i v : ℕ)
    → i + 1 < length packet.buffer
    → (bs : List ℕ) × (store16 packet i v ≡ some (record packet { buffer = bs }))
      × Rewritten i packet.buffer bs
unfolding store16
store16-some packet i v h = (
  set (set packet.buffer i (v % 256)) (i + 1) (v / 256),
  rw (lt→ltb _ _ h),
  record {
    same_length =
        length-set (set packet.buffer i (v % 256)) (i + 1) (v / 256)
        ∙ length-set packet.buffer i (v % 256);
    others = λ j a b.
        get_elem?-set_ne (set packet.buffer i (v % 256)) (i + 1) j (v / 256) (λ e. b (sym e))
        ∙ get_elem?-set_ne packet.buffer i j (v % 256) (λ e. a (sym e));
  },
)

load_bytes-some :
    (packet : Packet) (i n : ℕ)
    → i + n ≤ length packet.buffer
    → (bs : List ℕ) × (load_bytes packet i n ≡ some bs)
unfolding load_bytes
load_bytes-some packet i n h = (take n (drop i packet.buffer), rw (le→leb _ _ h))

pub fill-some :
    (packet : Packet) (check start n : ℕ) (sum : List ℕ → ℕ)
    → check + 1 < length packet.buffer
    → start + n ≤ length packet.buffer
    → (bs : List ℕ) × (fill packet check start n sum ≡ some (record packet { buffer = bs }))
      × Rewritten check packet.buffer bs
unfolding fill
fill-some packet check start n sum hc hs =
    let (zs, ez, rz) = store16-some packet check 0 hc in
    let zeroed = record packet { buffer = zs } in
    let (ps, ep) = load_bytes-some zeroed start n (omega (arith, rz.same_length)) in
    let (bs, eb, rb) = store16-some zeroed check (sum ps) (omega (arith, rz.same_length)) in
    (
      bs,
      rw (ez, ep, fill) eb,
      record {
        same_length = rb.same_length ∙ rz.same_length;
        others = λ i a b. rb.others i a b ∙ rz.others i a b;
      },
    )

load_be16-some :
    (packet : Packet) (i hi lo : ℕ)
    → get_elem? packet.buffer i ≡ some hi
    → get_elem? packet.buffer (i + 1) ≡ some lo
    → load_be16 packet i ≡ some (be16 hi lo)
unfolding load_be16
load_be16-some packet i hi lo e f = rw (e, f) refl

layer4-tcp :
    (packet p' : Packet) (ipv4 tcp n : ℕ) (src dst : List ℕ)
    → load_bytes packet (ipv4 + 12) 4 ≡ some src
    → load_bytes packet (ipv4 + 16) 4 ≡ some dst
    → packet.tcp ≡ some tcp
    → fill packet (tcp + 16) tcp (n % 2 ^ 16) (tcp_udp_v4_checksum src dst 6) ≡ some p'
    → checksum_ipv4_layer4 packet ipv4 n ≡ some p'
unfolding checksum_ipv4_layer4
layer4-tcp packet p' ipv4 tcp n src dst es ed et f = simp (es, ed, et) f

-- The TCP checksum of an IPv4 packet is filled in.
layer4-some :
    (packet : Packet) (ipv4 tcp n : ℕ)
    → packet.tcp ≡ some tcp
    → n < 2 ^ 16
    → 18 ≤ n
    → tcp + n ≤ length packet.buffer
    → ipv4 + 20 ≤ length packet.buffer
    → (bs : List ℕ) × (checksum_ipv4_layer4 packet ipv4 n ≡ some (record packet { buffer = bs }))
      × (length bs ≡ length packet.buffer)
layer4-some packet ipv4 tcp n et short wide fits inside =
    let (src, es) = load_bytes-some packet (ipv4 + 12) 4 (omega arith) in
    let (dst, ed) = load_bytes-some packet (ipv4 + 16) 4 (omega arith) in
    let (ys, ey, ry) =
      fill-some packet (tcp + 16) tcp (n % 2 ^ 16) (tcp_udp_v4_checksum src dst 6) (omega arith)
        (omega arith) in
    (ys, layer4-tcp packet _ ipv4 tcp n src dst es ed et ey, ry.same_length)

-- An IPv4 packet without IP options and with a TCP header is filled in.
pub packet-some :
    (packet : Packet) (ipv4 tcp b hi lo : ℕ)
    → get_elem? packet.buffer ipv4 ≡ some b
    → b % 16 ≡ 5
    → get_elem? packet.buffer (ipv4 + 2) ≡ some hi
    → get_elem? packet.buffer (ipv4 + 2 + 1) ≡ some lo
    → packet.tcp ≡ some tcp
    → be16 hi lo ≤ packet.ip_bytes
    → 38 ≤ be16 hi lo
    → be16 hi lo < 2 ^ 16
    → tcp + be16 hi lo ≤ length packet.buffer + 20
    → ipv4 + 20 ≤ length packet.buffer
    → (bs : List ℕ) × (checksum_ipv4_packet packet ipv4 ≡ some (record packet { buffer = bs }))
      × (length bs ≡ length packet.buffer)
unfolding checksum_ipv4_packet
packet-some packet ipv4 tcp b hi lo e0 e5 e2 e3 et covered wide short whole inside =
    let n = b % 16 * 4 in
    let (xs, ex, rx) =
      fill-some packet (ipv4 + 10) ipv4 n ipv4_checksum (omega arith) (omega arith) in
    let filled = record packet { buffer = xs } in
    let el =
      load_be16-some filled (ipv4 + 2) hi lo (rx.others (ipv4 + 2) (omega arith) (omega arith) ∙ e2)
        (rx.others (ipv4 + 2 + 1) (omega arith) (omega arith) ∙ e3) in
    let (ys, ey, ly) =
      layer4-some filled ipv4 tcp (be16 hi lo - n) et (omega arith) (omega arith)
        (omega (arith, rx.same_length)) (omega (arith, rx.same_length)) in
    (
      ys,
      simp (e0, ex, el, le→leb _ _ covered, gt→leb (be16 hi lo) n (omega arith), ey),
      ly ∙ rx.same_length,
    )

pub checksum_packet-some :
    (packet : Packet) (ipv4 : ℕ) (p' : Packet)
    → packet.ipv4 ≡ some ipv4
    → checksum_ipv4_packet packet ipv4 ≡ some p'
    → checksum_packet packet ≡ some p'
unfolding checksum_packet
checksum_packet-some packet ipv4 p' e f = simp (e, checksum_packet) f
