-- ===== src/Checksum/Fold.antt =====
-- checksum.c against the one's complement sum of the words.
use tcp_fuzz.Prelude.{ℕ, ◌+◌, ◌*◌, ◌/◌, ◌%◌, ◌^◌, ◌≤◌, ◌<◌, ◌≡◌, arith}
use tcp_fuzz.Prelude.{List, [], ◌∷◌, ◌++◌, length, All, All-append, IsByte, length-append}
use Prim.Native.Nat.{min}
use tcp_fuzz.Checksum.Sum.{ip_checksum_partial, ip_checksum_fold, fold_loop, ipv4_checksum}
use tcp_fuzz.Checksum.Sum.{le16, le32, add64}

-- The sum of the bytes as little-endian 16-bit words, an odd last byte padded with zero.
abbrev pub word_sum : List ℕ → ℕ
word_sum [] = 0
word_sum (a ∷ []) = a
word_sum (a ∷ b ∷ rest) = le16 a b + word_sum rest

-- One round keeps the value modulo `m - 1`; after two rounds the loop has ended.
pub fold_loop_32 :
    (s : ℕ)
    → s < 2 ^ 64
    → let t = fold_loop 2 (2 ^ 32) s in
      (t < 2 ^ 32) × (t % 65535 ≡ s % 65535) × (min 1 s ≤ t) × (t ≤ s)
unfolding fold_loop
fold_loop_32 s h = ground arith

pub fold_loop_16 :
    (s : ℕ)
    → s < 2 ^ 32
    → let t = fold_loop 2 (2 ^ 16) s in
      (t < 2 ^ 16) × (t % 65535 ≡ s % 65535) × (min 1 s ≤ t) × (t ≤ s)
unfolding fold_loop
fold_loop_16 s h = ground arith

abbrev IsSmall : ℕ → ℕ → Type 0
IsSmall n sum = sum + 2 ^ 32 * n < 2 ^ 64

-- The running sum does not wrap, and stands for the same value modulo 65535 as the words.
partial_bounds :
    (bytes : List ℕ) (sum : ℕ)
    → All IsByte bytes
    → IsSmall (length bytes) sum
    → let t = ip_checksum_partial bytes sum in
      (t < 2 ^ 64)
      × (t % 65535 ≡ (sum + word_sum bytes) % 65535)
      × (min 1 (sum + word_sum bytes) ≤ t)
      × (t ≤ sum + 65536 * word_sum bytes)
unfolding ip_checksum_partial
partial_bounds [] sum h small = omega arith
partial_bounds (a ∷ []) sum h small = omega arith
partial_bounds (a ∷ b ∷ []) sum h small = omega arith
partial_bounds (a ∷ b ∷ c ∷ []) sum h small = omega arith
partial_bounds (a ∷ b ∷ c ∷ d ∷ rest) sum (ha, (hb, (hc, (hd, hrest)))) small =
    omega (arith, partial_bounds rest (add64 sum (le32 a b c d)) hrest (omega arith))

-- The checksum of a list of words: the complement of a number below 2^16 that is their sum modulo
-- 65535, and zero only if they all are.
pub fold-partial :
    (bytes : List ℕ)
    → All IsByte bytes
    → length bytes < 2 ^ 31
    → (f : ℕ) × (ipv4_checksum bytes + f ≡ 65535)
      × (f % 65535 ≡ word_sum bytes % 65535)
      × (min 1 (word_sum bytes) ≤ f)
      × (f ≤ 65536 * word_sum bytes)
unfolding ipv4_checksum ip_checksum_fold
fold-partial bytes h small =
    let (t64, tmod, tpos, tle) = partial_bounds bytes 0 h (omega arith) in
    let s = ip_checksum_partial bytes 0 in
    let (u32, umod, upos, ule) = fold_loop_32 s t64 in
    let (v16, vmod, vpos, vle) = fold_loop_16 (fold_loop 2 (2 ^ 32) s) u32 in
    (
      fold_loop 2 (2 ^ 16) (fold_loop 2 (2 ^ 32) s),
      omega arith,
      omega arith,
      omega arith,
      omega arith,
    )

word_sum-append :
    (pre post : List ℕ) → length pre % 2 ≡ 0 → word_sum (pre ++ post) ≡ word_sum pre + word_sum post
word_sum-append [] post e = omega arith
word_sum-append (a ∷ []) post e = absurd (omega arith)
word_sum-append (a ∷ b ∷ pre) post e = omega (arith, word_sum-append pre post (omega arith))

-- Bytes, fewer than 2^30, with a checksum field at an even offset verify: if the field holds the checksum that
-- ipv4_checksum computes over them with the field zero, in the byte order of the host, then
-- ipv4_checksum over them is 0. This is the test of verify_outbound_live_checksums.
pub ipv4_checksum_verifies :
    (pre post : List ℕ)
    → All IsByte pre
    → All IsByte post
    → length pre % 2 ≡ 0
    → length pre + length post < 2 ^ 30
    → let c = ipv4_checksum (pre ++ (0 ∷ 0 ∷ post)) in
      ipv4_checksum (pre ++ ((c % 256) ∷ (c / 256) ∷ post)) ≡ 0
ipv4_checksum_verifies pre post hpre hpost even small =
    let zeros : List ℕ = 0 ∷ 0 ∷ post in
    let (f, cf, fmod, fpos, fle) =
      fold-partial (pre ++ zeros)
        (All-append IsByte pre zeros hpre (omega arith, (omega arith, hpost)))
        (omega (arith, length-append {0} pre zeros)) in
    let c = ipv4_checksum (pre ++ zeros) in
    let filled : List ℕ = (c % 256) ∷ (c / 256) ∷ post in
    let (g, eg, gmod, gpos, gle) =
      fold-partial (pre ++ filled)
        (All-append IsByte pre filled hpre (omega arith, (omega arith, hpost)))
        (omega (arith, length-append {0} pre filled)) in
    omega (arith, word_sum-append pre filled even, word_sum-append pre zeros even)
