-- ===== src/Addresses.antt =====
-- ip_address.c and ip_address.h: IP addresses, as the 16 bytes of the union in `struct ip_address`, and the
-- IPv6 addresses that stand for IPv4 addresses.
use tcp_fuzz.Prelude.{
  ℕ, zero, suc, ◌+◌, ◌==◌, ◌&&◌, if◌then◌else◌, Bool, true, false, Option, none, some, List, [],
  ◌∷◌, ◌++◌, ◌≡◌, refl, sym, ap, ◌∙◌, arith, length, take, drop, replicate, ==→eq, false_true,
  Bool-cases, inl, inr,
}
use mathlib.Core.Option.{some-injective, none-ne-some}
use tcp_fuzz.Build.{Family}

pub record IpAddress : Type 0 where
  pub address_family : Family
  pub bytes : List ℕ

abbrev ipv4_mapped_prefix : List ℕ
ipv4_mapped_prefix = 0 ∷ 0 ∷ 0 ∷ 0 ∷ 0 ∷ 0 ∷ 0 ∷ 0 ∷ 0 ∷ 0 ∷ 0xFF ∷ 0xFF ∷ []

-- memcmp() as far as its answer is 0, on lists of one length.
unfoldable pub same_bytes : List ℕ → List ℕ → Bool
same_bytes [] [] = true
same_bytes [] (b ∷ ys) = false
same_bytes (a ∷ xs) [] = false
same_bytes (a ∷ xs) (b ∷ ys) = a == b && same_bytes xs ys

-- The argument is the four bytes of a `struct in_addr`; the rest of the union is 0.
unfoldable pub ip_from_ipv4 : List ℕ → IpAddress
ip_from_ipv4 ipv4 = record { address_family = Family.inet; bytes = ipv4 ++ replicate 12 0 }

unfoldable pub ipv6_map_from_ipv4 : IpAddress → IpAddress
ipv6_map_from_ipv4 ipv4 = record {
  address_family = Family.inet6;
  bytes = ipv4_mapped_prefix ++ take 4 ipv4.bytes;
}

-- `none` is STATUS_ERR.
unfoldable pub ipv6_map_to_ipv4 : IpAddress → Option IpAddress
unfolding same_bytes ip_from_ipv4
ipv6_map_to_ipv4 ipv6 =
    if same_bytes (take 12 ipv6.bytes) ipv4_mapped_prefix
    then some (ip_from_ipv4 (drop 12 ipv6.bytes))
    else none

same_bytes→eq : (xs ys : List ℕ) → same_bytes xs ys ≡ true → xs ≡ ys
unfolding same_bytes
same_bytes→eq [] [] h = refl
same_bytes→eq [] (b ∷ ys) h = false_true h
same_bytes→eq (a ∷ xs) [] h = false_true h
same_bytes→eq (a ∷ xs) (b ∷ ys) h = grind (arith, ==→eq, same_bytes→eq xs ys)

take_all : (n : ℕ) (xs ys : List ℕ) → length xs ≡ n → take n (xs ++ ys) ≡ xs
take_all zero [] ys h = refl
take_all zero (x ∷ xs) ys h = absurd (omega arith)
take_all (suc n) [] ys h = absurd (omega arith)
take_all (suc n) (x ∷ xs) ys h = ap (λ zs. x ∷ zs) (take_all n xs ys (omega arith))

length-drop : (n k : ℕ) (xs : List ℕ) → length xs ≡ n + k → length (drop n xs) ≡ k
length-drop zero k xs h = omega (arith, h)
length-drop (suc n) k [] h = absurd (omega arith)
length-drop (suc n) k (x ∷ xs) h = length-drop n k xs (omega arith)

take-drop : (n : ℕ) (xs : List ℕ) → take n xs ++ drop n xs ≡ xs
take-drop zero xs = refl
take-drop (suc n) [] = refl
take-drop (suc n) (x ∷ xs) = ap (λ zs. x ∷ zs) (take-drop n xs)

-- The IPv6 address for an IPv4 address of four bytes is mapped to that IPv4 address.
pub map_to-map_from :
    (ipv4 : List ℕ)
    → length ipv4 ≡ 4
    → ipv6_map_to_ipv4 (ipv6_map_from_ipv4 (ip_from_ipv4 ipv4)) ≡ some (ip_from_ipv4 ipv4)
unfolding ipv6_map_to_ipv4 ipv6_map_from_ipv4 ip_from_ipv4 same_bytes
map_to-map_from ipv4 h = rw (take_all 4 ipv4 (replicate 12 0) h) refl

mapped_bytes :
    (bytes : List ℕ)
    → length bytes ≡ 16
    → take 12 bytes ≡ ipv4_mapped_prefix
    → (ipv6_map_from_ipv4 (ip_from_ipv4 (drop 12 bytes))).bytes ≡ bytes
unfolding ipv6_map_from_ipv4 ip_from_ipv4
mapped_bytes bytes h e =
    ap (λ zs. ipv4_mapped_prefix ++ zs)
      (take_all 4 (drop 12 bytes) (replicate 12 0) (length-drop 12 4 bytes h))
    ∙ (ap (λ zs. zs ++ drop 12 bytes) (sym e) ∙ take-drop 12 bytes)

-- If an IPv6 address of 16 bytes is mapped to an IPv4 address, then it has the bytes of the IPv6 address for
-- that IPv4 address.
pub map_from-map_to :
    (ipv6 ipv4 : IpAddress)
    → length ipv6.bytes ≡ 16
    → ipv6_map_to_ipv4 ipv6 ≡ some ipv4
    → (ipv6_map_from_ipv4 ipv4).bytes ≡ ipv6.bytes
unfolding ipv6_map_to_ipv4
map_from-map_to ipv6 ipv4 h e =
    elim (Bool-cases (same_bytes (take 12 ipv6.bytes) ipv4_mapped_prefix)) [
      | inl same ↦
          let found : some (ip_from_ipv4 (drop 12 ipv6.bytes)) ≡ some ipv4 =
            rw (same, ipv6_map_to_ipv4) at e in
          ap (λ ip. (ipv6_map_from_ipv4 ip).bytes)
            (sym (some-injective (ip_from_ipv4 (drop 12 ipv6.bytes)) ipv4 found))
          ∙ mapped_bytes ipv6.bytes h (same_bytes→eq _ _ same)
      | inr differs ↦ absurd (none-ne-some ipv4 (rw (differs, ipv6_map_to_ipv4) at e))
    ]
