-- ===== src/Build/Layer4.antt =====
-- parse_layer4 on the TCP and UDP headers of tcp_packet.c and udp_packet.c, behind either IP header.
use tcp_fuzz.Prelude.{
  ℕ, ◌+◌, ◌-◌, ◌*◌, ◌/◌, ◌^◌, ◌≤◌, ◌<◌, ◌≡◌, arith, be16, List, [], ◌∷◌, ◌++◌, length, some,
}
use tcp_fuzz.Packet.{Packet, HeaderType, packet_append_header}
use tcp_fuzz.Packet.Layout.{header_at}
use tcp_fuzz.Parser.Outcome.{ret, packet_ok, load8, load16, assert}
use tcp_fuzz.Parser.Layer4.{append_or_bad, parse_tcp, parse_udp}
use tcp_fuzz.Parser.Layer3.{Nested, Parse, parse_layer4, parse_layer3_packet_by_proto}
use tcp_fuzz.Build.Layer3.{ipv4_bytes, ipv6_bytes, behind_ip}

-- The fixed part of a TCP header, up to the flags, and of a UDP header.
abbrev pub tcp_part : ℕ → ℕ → ℕ → ℕ → ℕ → ℕ → ℕ → ℕ → ℕ → ℕ → ℕ → ℕ → ℕ → List ℕ → List ℕ
tcp_part p₀ p₁ p₂ p₃ s₀ s₁ s₂ s₃ a₀ a₁ a₂ a₃ off rest =
    p₀ ∷ p₁ ∷ p₂ ∷ p₃ ∷ s₀ ∷ s₁ ∷ s₂ ∷ s₃ ∷ a₀ ∷ a₁ ∷ a₂ ∷ a₃ ∷ off ∷ rest

-- What the parser has read behind the layer 4 header at `start`.
abbrev pub with_layer4 : Packet → HeaderType → ℕ → ℕ → ℕ → Packet
with_layer4 packet type header_bytes total start = record packet {
  ip_bytes = start + header_bytes;
  headers = packet.headers ++ (header_at type header_bytes total start ∷ []);
}

module _ (nested : Nested → Parse) (tos hi lo ttl p₀ p₁ p₂ p₃ s₀ s₁ s₂ s₃ a₀ a₁ a₂ a₃ off : ℕ)
    (rest : List ℕ) where
  abbrev bytes : List ℕ
  bytes = ipv4_bytes tos hi lo ttl 6 (tcp_part p₀ p₁ p₂ p₃ s₀ s₁ s₂ s₃ a₀ a₁ a₂ a₃ off rest)

  abbrev ip : Packet
  ip = behind_ip HeaderType.ipv4 20 (be16 hi lo) bytes

  pub parse_tcp-ipv4 :
      20 ≤ off / 16 * 4
      → off / 16 * 4 + 20 ≤ be16 hi lo
      → be16 hi lo ≤ length bytes
      → length bytes < 2 ^ 30
      → parse_layer4 nested
          (parse_layer3_packet_by_proto nested)
          ip
          20
          6
          (be16 hi lo - 20)
          (length bytes)
        ≡ ret packet_ok
            (record (with_layer4 ip HeaderType.tcp (off / 16 * 4) (be16 hi lo - 20) 20) {
              tcp = some 20;
            })
  unfolding parse_layer4 parse_tcp load8 append_or_bad packet_append_header assert
  parse_tcp-ipv4 wide fits whole small = ground arith

module _ (nested : Nested → Parse)
    (first second f₁ f₂ hi lo hop_limit p₀ p₁ p₂ p₃ s₀ s₁ s₂ s₃ a₀ a₁ a₂ a₃ off : ℕ)
    (rest : List ℕ) where
  abbrev bytes6 : List ℕ
  bytes6 =
      ipv6_bytes first second f₁ f₂ hi lo 6 hop_limit
        (tcp_part p₀ p₁ p₂ p₃ s₀ s₁ s₂ s₃ a₀ a₁ a₂ a₃ off rest)

  abbrev ip6 : Packet
  ip6 = behind_ip HeaderType.ipv6 40 (40 + be16 hi lo) bytes6

  pub parse_tcp-ipv6 :
      20 ≤ off / 16 * 4
      → off / 16 * 4 ≤ be16 hi lo
      → 40 + be16 hi lo ≤ length bytes6
      → length bytes6 < 2 ^ 30
      → parse_layer4 nested
          (parse_layer3_packet_by_proto nested)
          ip6
          40
          6
          (40 + be16 hi lo - 40)
          (length bytes6)
        ≡ ret packet_ok (record (with_layer4 ip6 HeaderType.tcp (off / 16 * 4) (be16 hi lo) 40) {
          tcp = some 40;
        })
  unfolding parse_layer4 parse_tcp load8 append_or_bad packet_append_header assert
  parse_tcp-ipv6 wide fits whole small = ground arith

-- A UDP header whose length is that of layer 4.
abbrev pub udp_part : ℕ → ℕ → ℕ → ℕ → ℕ → ℕ → List ℕ → List ℕ
udp_part p₀ p₁ p₂ p₃ l₀ l₁ rest = p₀ ∷ p₁ ∷ p₂ ∷ p₃ ∷ l₀ ∷ l₁ ∷ rest

pub parse_udp-ipv4 :
    (nested : Nested → Parse) (tos hi lo ttl p₀ p₁ p₂ p₃ l₀ l₁ : ℕ) (rest : List ℕ)
    → let bytes = ipv4_bytes tos hi lo ttl 17 (udp_part p₀ p₁ p₂ p₃ l₀ l₁ rest) in
      let ip = behind_ip HeaderType.ipv4 20 (be16 hi lo) bytes in
      8 ≤ be16 l₀ l₁
      → be16 l₀ l₁ + 20 ≡ be16 hi lo
      → be16 hi lo ≤ length bytes
      → length bytes < 2 ^ 30
      → parse_layer4 nested
          (parse_layer3_packet_by_proto nested)
          ip
          20
          17
          (be16 hi lo - 20)
          (length bytes)
        ≡ ret packet_ok
            (record (with_layer4 ip HeaderType.udp 8 (be16 hi lo - 20) 20) { udp = some 20 })
unfolding parse_layer4 parse_udp load16 load8 append_or_bad packet_append_header assert
parse_udp-ipv4 nested tos hi lo ttl p₀ p₁ p₂ p₃ l₀ l₁ rest low same whole small = ground arith

pub parse_udp-ipv6 :
    (nested : Nested → Parse) (first second f₁ f₂ hi lo hop_limit p₀ p₁ p₂ p₃ l₀ l₁ : ℕ)
    (rest : List ℕ)
    → let bytes =
        ipv6_bytes first second f₁ f₂ hi lo 17 hop_limit (udp_part p₀ p₁ p₂ p₃ l₀ l₁ rest) in
      let ip = behind_ip HeaderType.ipv6 40 (40 + be16 hi lo) bytes in
      8 ≤ be16 l₀ l₁
      → be16 l₀ l₁ ≡ be16 hi lo
      → 40 + be16 hi lo ≤ length bytes
      → length bytes < 2 ^ 30
      → parse_layer4 nested
          (parse_layer3_packet_by_proto nested)
          ip
          40
          17
          (40 + be16 hi lo - 40)
          (length bytes)
        ≡ ret packet_ok (record (with_layer4 ip HeaderType.udp 8 (be16 hi lo) 40) { udp = some 40 })
unfolding parse_layer4 parse_udp load16 load8 append_or_bad packet_append_header assert
parse_udp-ipv6 nested first second f₁ f₂ hi lo hop_limit p₀ p₁ p₂ p₃ l₀ l₁ rest low same whole
      small =
    ground arith
