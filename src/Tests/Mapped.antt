-- ===== src/Tests/Mapped.antt =====
-- Tests of the IPv6 addresses that stand for IPv4 addresses.
use tcp_fuzz.Prelude.{◌≡◌, refl, [], ◌∷◌, some, none, replicate}
use tcp_fuzz.Build.{Family}
use tcp_fuzz.Addresses.{
  IpAddress, same_bytes, ip_from_ipv4, ipv6_map_from_ipv4, ipv6_map_to_ipv4, map_to-map_from,
  map_from-map_to,
}

-- ::ffff:192.0.2.1
abbrev mapped : IpAddress
mapped = record {
  address_family = Family.inet6;
  bytes = 0 ∷ 0 ∷ 0 ∷ 0 ∷ 0 ∷ 0 ∷ 0 ∷ 0 ∷ 0 ∷ 0 ∷ 0xFF ∷ 0xFF ∷ 192 ∷ 0 ∷ 2 ∷ 1 ∷ [];
}

mapped_to : ipv6_map_to_ipv4 mapped ≡ some (ip_from_ipv4 (192 ∷ 0 ∷ 2 ∷ 1 ∷ []))
unfolding ipv6_map_to_ipv4 same_bytes
mapped_to = refl

not_mapped :
    ipv6_map_to_ipv4 (record { address_family = Family.inet6; bytes = replicate 16 0 }) ≡ none
unfolding ipv6_map_to_ipv4 same_bytes
not_mapped = refl

map_to-map_from_example :
    ipv6_map_to_ipv4 (ipv6_map_from_ipv4 (ip_from_ipv4 (10 ∷ 0 ∷ 0 ∷ 7 ∷ [])))
    ≡ some (ip_from_ipv4 (10 ∷ 0 ∷ 0 ∷ 7 ∷ []))
map_to-map_from_example = map_to-map_from (10 ∷ 0 ∷ 0 ∷ 7 ∷ []) refl

map_from-map_to_example :
    (ipv6_map_from_ipv4 (ip_from_ipv4 (192 ∷ 0 ∷ 2 ∷ 1 ∷ []))).bytes ≡ mapped.bytes
map_from-map_to_example =
    map_from-map_to mapped (ip_from_ipv4 (192 ∷ 0 ∷ 2 ∷ 1 ∷ [])) refl mapped_to
