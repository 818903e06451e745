-- ===== src/HashMap/New.antt =====
-- hash_map_new and hash_map_pick_bucket_count of hash_map.c.
use tcp_fuzz.Prelude.{ℕ, zero, suc, ◌+◌, ◌^◌, ◌≤◌, ◌≡◌, refl, ap, ◌∙◌, arith}
use tcp_fuzz.Prelude.{none, List, []}
use tcp_fuzz.Prelude.{Bool-cases, inl, inr}
use tcp_fuzz.Prelude.{ltb, length-replicate, get_or-replicate, ◌&&◌}
use tcp_fuzz.HashMap.{HashNode, hash_bucket_num, hash_map_new}
use tcp_fuzz.HashMap.{hash_map_get, max_buckets, find}
use tcp_fuzz.HashMap.{grow_count, hash_map_pick_bucket_count}
use tcp_fuzz.HashMap.Chain.{count}
use tcp_fuzz.HashMap.Invariant.{IsWellFormed}
use Prim.Native.Nat.{min}

-- The loop stops at a power of two, with the rounds it has left at the first that is large enough.
grow_count_lem :
    (rounds num_keys e : ℕ)
    → e + rounds ≡ 30
    → (x : ℕ) × (grow_count rounds num_keys (2 ^ e) ≡ 2 ^ x)
      × (2 ^ e ≤ 2 ^ x)
      × (min num_keys max_buckets ≤ 2 ^ x)
      × (2 ^ x ≤ max_buckets)
unfolding grow_count
grow_count_lem zero num_keys e h =
    let e30 : e ≡ 30 = omega arith in
    (e, refl, omega arith, rw (e30) (omega arith), rw (e30) (omega arith))
grow_count_lem (suc rounds) num_keys e h =
    let (x, s, l, m, t) = grow_count_lem rounds num_keys (suc e) (omega arith) in
    elim (Bool-cases (ltb (2 ^ e) num_keys && ltb (2 ^ e) max_buckets)) [
      | inl b ↦ (
        x,
        rw (b, grow_count) (ap (grow_count rounds num_keys) (omega arith) ∙ s),
        omega (arith, l),
        m,
        t,
      )
      | inr b ↦ (e, rw (b, grow_count) refl, omega arith, ground (arith, b), omega (arith, l, t))
    ]

module _ (hash : ℕ → ℕ) where
  -- A new map is well formed: the bucket count is a power of two.
  new-IsWellFormed : (num_keys : ℕ) → IsWellFormed hash (hash_map_new num_keys)
  unfolding hash_map_new hash_map_pick_bucket_count count
  new-IsWellFormed num_keys =
      let (x, e, l, m, t) = grow_count_lem 30 num_keys 0 (omega arith) in
      let n = hash_map_pick_bucket_count num_keys in
      record {
        exponent = x;
        power = e;
        sized = length-replicate {A = List HashNode} n [];
        placed = λ i k ne. ap (count k) (get_or-replicate {A = List HashNode} n i []);
        once = λ k. omega (
          arith,
          ap (count k) (
              get_or-replicate {A = List HashNode} n
                (hash_bucket_num hash (hash_map_new num_keys) k) []),
        );
      }

  -- A new map has no key, in at least as many buckets as it is meant for, up to 2^30.
  pub get-hash_map_new :
      (num_keys k : ℕ)
      → (hash_map_get hash (hash_map_new num_keys) k ≡ none)
        × (min num_keys (2 ^ 30) ≤ (hash_map_new num_keys).num_buckets)
        × IsWellFormed hash (hash_map_new num_keys)
  unfolding hash_map_new hash_map_pick_bucket_count hash_map_get find
  get-hash_map_new num_keys k =
      let n = hash_map_pick_bucket_count num_keys in
      let (x, e, l, m, t) = grow_count_lem 30 num_keys 0 (omega arith) in
      (
        ap (find k) (
            get_or-replicate {A = List HashNode} n (hash_bucket_num hash (hash_map_new num_keys) k)
              []),
        omega (arith, e, m),
        new-IsWellFormed num_keys,
      )
