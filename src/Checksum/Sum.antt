-- ===== src/Checksum/Sum.antt =====
-- ip_checksum_partial and ip_checksum_fold of checksum.c, with the checksums made of them.
-- Words are read in the byte order of the host, which is little endian; the result is stored so.
use tcp_fuzz.Prelude.{ℕ, zero, suc, ◌+◌, ◌-◌, ◌*◌, ◌/◌, ◌%◌, ◌^◌, ltb, if◌then◌else◌}
use tcp_fuzz.Prelude.{List, [], ◌∷◌, ◌++◌, length}

abbrev pub le16 : ℕ → ℕ → ℕ
le16 a b = a + b * 256

abbrev pub le32 : ℕ → ℕ → ℕ → ℕ → ℕ
le32 a b c d = a + b * 256 + c * 2 ^ 16 + d * 2 ^ 24

-- `sum += word` on a `u64`
abbrev pub add64 : ℕ → ℕ → ℕ
add64 sum word = (sum + word) % 2 ^ 64

-- Four bytes at a time, then two, then the last one: `ntohs(*p8 << 8)` is that byte.
unfoldable pub ip_checksum_partial : List ℕ → ℕ → ℕ
ip_checksum_partial (a ∷ b ∷ c ∷ d ∷ rest) sum = ip_checksum_partial rest (add64 sum (le32 a b c d))
ip_checksum_partial (a ∷ b ∷ c ∷ []) sum = add64 (add64 sum (le16 a b)) c
ip_checksum_partial (a ∷ b ∷ []) sum = add64 sum (le16 a b)
ip_checksum_partial (a ∷ []) sum = add64 sum a
ip_checksum_partial [] sum = sum

-- `while (sum >= m) sum = sum / m + sum % m`, for a number of rounds: the two loops of
-- ip_checksum_fold, with shifts and masks as division by `m = 2^32` and `m = 2^16`.
unfoldable pub fold_loop : ℕ → ℕ → ℕ → ℕ
fold_loop zero m sum = sum
fold_loop (suc rounds) m sum =
    let rest = fold_loop rounds m (sum / m + sum % m) in if ltb sum m then sum else rest

-- Two rounds end either loop. The result is the low half of `~sum`.
unfoldable pub ip_checksum_fold : ℕ → ℕ
ip_checksum_fold sum = 2 ^ 16 - 1 - fold_loop 2 (2 ^ 16) (fold_loop 2 (2 ^ 32) sum) % 2 ^ 16

unfoldable pub tcp_udp_v4_header_checksum_partial : List ℕ → List ℕ → ℕ → ℕ → ℕ
tcp_udp_v4_header_checksum_partial src_ip dst_ip protocol len =
    ip_checksum_partial (src_ip ++ (dst_ip ++ (0 ∷ protocol ∷ (len / 256) ∷ (len % 256) ∷ []))) 0

-- `len` is the length of the payload, as a `u16`.
unfoldable pub tcp_udp_v4_checksum : List ℕ → List ℕ → ℕ → List ℕ → ℕ
tcp_udp_v4_checksum src_ip dst_ip protocol payload = ip_checksum_fold (
    ip_checksum_partial payload
      (tcp_udp_v4_header_checksum_partial src_ip dst_ip protocol (length payload)))

unfoldable pub ipv4_checksum : List ℕ → ℕ
ipv4_checksum header = ip_checksum_fold (ip_checksum_partial header 0)

unfoldable pub tcp_udp_v6_header_checksum_partial : List ℕ → List ℕ → ℕ → ℕ → ℕ
tcp_udp_v6_header_checksum_partial src_ip dst_ip protocol len =
    ip_checksum_partial
      (src_ip
        ++ (dst_ip
            ++ ((len / 2 ^ 24)
                ∷ (len / 2 ^ 16 % 256)
                ∷ (len / 256 % 256)
                ∷ (len % 256)
                ∷ 0
                ∷ 0
                ∷ 0
                ∷ protocol
                ∷ [])))
      0

unfoldable pub tcp_udp_v6_checksum : List ℕ → List ℕ → ℕ → List ℕ → ℕ
tcp_udp_v6_checksum src_ip dst_ip protocol payload = ip_checksum_fold (
    ip_checksum_partial payload
      (tcp_udp_v6_header_checksum_partial src_ip dst_ip protocol (length payload)))
