-- ===== src/Checksum/Fill.antt =====
-- packet_checksum.c: fill in the checksums of the innermost IP header and of the layer 4 header.
-- `none` is a failed `assert`, or an access outside the buffer.
use tcp_fuzz.Prelude.{ℕ, ◌+◌, ◌-◌, ◌*◌, ◌/◌, ◌%◌, ◌^◌, leb, ltb, if◌then◌else◌, be16}
use tcp_fuzz.Prelude.{Option, none, some, List, length, get_elem?, set, take, drop}
use tcp_fuzz.Prelude.Fail.{◌>>=◌, ◌>>◌, guard}
use tcp_fuzz.Packet.{Packet}
use tcp_fuzz.Checksum.Sum.{ipv4_checksum, tcp_udp_v4_checksum, tcp_udp_v6_checksum}

-- `n` bytes from offset `i` on.
unfoldable pub load_bytes : Packet → ℕ → ℕ → Option (List ℕ)
load_bytes packet i n = do
  guard (leb (i + n) (length packet.buffer))
  some (take n (drop i packet.buffer))

unfoldable pub load_be16 : Packet → ℕ → Option ℕ
load_be16 packet i = do
  hi ← get_elem? packet.buffer i
  lo ← get_elem? packet.buffer (i + 1)
  some (be16 hi lo)

-- Store a `u16` in the byte order of the host.
unfoldable pub store16 : Packet → ℕ → ℕ → Option Packet
store16 packet i v = do
  guard (ltb (i + 1) (length packet.buffer))
  some (record packet { buffer = set (set packet.buffer i (v % 256)) (i + 1) (v / 256) })

-- Zero the check field at `check`, compute over the `n` bytes from `start`, and store the result.
unfoldable pub fill : Packet → ℕ → ℕ → ℕ → (List ℕ → ℕ) → Option Packet
unfolding load_bytes store16
fill packet check start n sum = do
  zeroed ← store16 packet check 0
  bytes ← load_bytes zeroed start n
  store16 zeroed check (sum bytes)

-- The protocols are IPPROTO_TCP and IPPROTO_UDP; the check fields lie 16, 6 and 2 bytes into the
-- headers. `layer4_bytes` is passed on as a `u16`.
unfoldable pub checksum_ipv4_layer4 : Packet → ℕ → ℕ → Option Packet
unfolding load_bytes
checksum_ipv4_layer4 packet ipv4 layer4_bytes = do
  src_ip ← load_bytes packet (ipv4 + 12) 4
  dst_ip ← load_bytes packet (ipv4 + 16) 4
  elim packet.tcp [
    | some tcp ↦
        fill packet (tcp + 16) tcp (layer4_bytes % 2 ^ 16) (tcp_udp_v4_checksum src_ip dst_ip 6)
    | none ↦ elim packet.udp [
      | some udp ↦
          fill packet (udp + 6) udp (layer4_bytes % 2 ^ 16) (tcp_udp_v4_checksum src_ip dst_ip 17)
      | none ↦ elim packet.icmpv4 [
        | some icmpv4 ↦ fill packet (icmpv4 + 2) icmpv4 layer4_bytes ipv4_checksum
        | none ↦ none
      ]
    ]
  ]

-- A length error leaves the layer 4 checksum alone.
unfoldable pub checksum_ipv4_packet : Packet → ℕ → Option Packet
unfolding load_be16 checksum_ipv4_layer4
checksum_ipv4_packet packet ipv4 = do
  b ← get_elem? packet.buffer ipv4
  let header_len = b % 16 * 4
  filled ← fill packet (ipv4 + 10) ipv4 header_len ipv4_checksum
  tot_len ← load_be16 filled (ipv4 + 2)
  guard (leb tot_len filled.ip_bytes)
  if leb tot_len header_len
      then some filled
      else checksum_ipv4_layer4 filled ipv4 (tot_len - header_len)

-- IPPROTO_TCP, IPPROTO_UDP and IPPROTO_ICMPV6.
unfoldable pub checksum_ipv6_packet : Packet → ℕ → Option Packet
unfolding load_be16 load_bytes
checksum_ipv6_packet packet ipv6 = do
  payload_len ← load_be16 packet (ipv6 + 4)
  guard (leb (40 + payload_len) packet.ip_bytes)
  guard (ltb 0 payload_len)
  src_ip ← load_bytes packet (ipv6 + 8) 16
  dst_ip ← load_bytes packet (ipv6 + 24) 16
  elim packet.tcp [
    | some tcp ↦ fill packet (tcp + 16) tcp payload_len (tcp_udp_v6_checksum src_ip dst_ip 6)
    | none ↦ elim packet.udp [
      | some udp ↦ fill packet (udp + 6) udp payload_len (tcp_udp_v6_checksum src_ip dst_ip 17)
      | none ↦ elim packet.icmpv6 [
        | some icmpv6 ↦
            fill packet (icmpv6 + 2) icmpv6 payload_len (tcp_udp_v6_checksum src_ip dst_ip 58)
        | none ↦ none
      ]
    ]
  ]

-- packet_address_family is AF_INET if there is an IPv4 header, else AF_INET6 if there is an IPv6 one.
unfoldable pub checksum_packet : Packet → Option Packet
unfolding checksum_ipv4_packet checksum_ipv6_packet
checksum_packet packet = elim packet.ipv4 [
  | some ipv4 ↦ checksum_ipv4_packet packet ipv4
  | none ↦ elim packet.ipv6 [ some ipv6 ↦ checksum_ipv6_packet packet ipv6 | none ↦ none ]
]
