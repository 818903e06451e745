-- ===== src/HashMap/Invariant.antt =====
-- Well-formed hash maps of hash_map.c, and what hash_map_link does to the buckets.
use tcp_fuzz.Prelude.{ℕ, ◌+◌, ◌^◌, ◌≤◌, ◌<◌, ◌≡◌, refl, sym, ◌≢◌, arith}
use tcp_fuzz.Prelude.{◌==◌, if◌then◌else◌, some, List, [], ◌∷◌, length}
use tcp_fuzz.Prelude.{
  get_or, get_or-set_self, get_or-set_ne, length-set, Bool-cases, inl, inr, ==→eq, ==→ne,
}
use tcp_fuzz.HashMap.{HashNode, HashMap, find, hash_bucket_num, hash_map_link}
use tcp_fuzz.HashMap.Chain.{count}

abbrev pub bucket : HashMap → ℕ → List HashNode
bucket map i = get_or map.buckets i []

module _ (hash : ℕ → ℕ) where
  -- The number of buckets is a power of two and that of the array, every key is in its own bucket,
  -- and there once at most.
  pub record IsWellFormed (map : HashMap) : Type 0 where
    pub exponent : ℕ
    pub power : map.num_buckets ≡ 2 ^ exponent
    pub sized : length map.buckets ≡ map.num_buckets
    pub placed : (i k : ℕ) → i ≢ hash_bucket_num hash map k → count k (bucket map i) ≡ 0
    pub once : (k : ℕ) → count k (bucket map (hash_bucket_num hash map k)) ≤ 1

  pub hash_bucket_num-bound :
      (map : HashMap) (k : ℕ) → 0 < map.num_buckets → hash_bucket_num hash map k < map.num_buckets
  unfolding hash_bucket_num
  hash_bucket_num-bound map k h = omega arith

  pub link-num_buckets :
      (map : HashMap) (node : HashNode)
      → (hash_map_link hash map node).num_buckets ≡ map.num_buckets
  unfolding hash_map_link
  link-num_buckets map node = refl

  pub link-length :
      (map : HashMap) (node : HashNode)
      → length (hash_map_link hash map node).buckets ≡ length map.buckets
  unfolding hash_map_link
  link-length map node = length-set map.buckets _ _

  pub link-bucket_num :
      (map : HashMap) (node : HashNode) (k : ℕ)
      → hash_bucket_num hash (hash_map_link hash map node) k ≡ hash_bucket_num hash map k
  unfolding hash_bucket_num hash_map_link
  link-bucket_num map node k = refl

  pub link-bucket_self :
      (map : HashMap) (node : HashNode)
      → hash_bucket_num hash map node.key < length map.buckets
      → bucket (hash_map_link hash map node) (hash_bucket_num hash map node.key)
        ≡ node ∷ bucket map (hash_bucket_num hash map node.key)
  unfolding hash_map_link
  link-bucket_self map node h =
      get_or-set_self map.buckets (hash_bucket_num hash map node.key) _ [] h

  pub link-bucket_ne :
      (map : HashMap) (node : HashNode) (i : ℕ)
      → i ≢ hash_bucket_num hash map node.key
      → bucket (hash_map_link hash map node) i ≡ bucket map i
  unfolding hash_map_link
  link-bucket_ne map node i h =
      get_or-set_ne map.buckets (hash_bucket_num hash map node.key) i _ [] (λ e. h (sym e))

  -- How often any key stands in any bucket, and the first node with a key, after a link.
  pub link-count :
      (map : HashMap) (node : HashNode) (i k : ℕ)
      → hash_bucket_num hash map node.key < length map.buckets
      → count k (bucket (hash_map_link hash map node) i)
        ≡ (if i == hash_bucket_num hash map node.key then if node.key == k then 1 else 0 else 0)
          + count k (bucket map i)
  unfolding count
  link-count map node i k h = elim (Bool-cases (i == hash_bucket_num hash map node.key)) [
    | inl e ↦
        let same : i ≡ hash_bucket_num hash map node.key = ==→eq _ _ e in
        rw (e, same, link-bucket_self map node h) refl
    | inr e ↦ rw (e, link-bucket_ne map node i (==→ne _ _ e)) (omega arith)
  ]

  pub link-find :
      (map : HashMap) (node : HashNode) (k : ℕ)
      → hash_bucket_num hash map node.key < length map.buckets
      → find k (bucket (hash_map_link hash map node) (hash_bucket_num hash map k)) ≡ (
          if node.key == k
          then some node.value
          else find k (bucket map (hash_bucket_num hash map k)))
  unfolding find
  link-find map node k h = elim (Bool-cases (node.key == k)) [
    | inl e ↦
        let same : k ≡ node.key = sym (==→eq _ _ e) in rw (same, link-bucket_self map node h) refl
    | inr e ↦ elim (Bool-cases (hash_bucket_num hash map k == hash_bucket_num hash map node.key)) [
      | inl f ↦
          let same : hash_bucket_num hash map k ≡ hash_bucket_num hash map node.key = ==→eq _ _ f in
          rw (same, link-bucket_self map node h, e) refl
      | inr f ↦ rw (e, link-bucket_ne map node _ (==→ne _ _ f)) refl
    ]
  ]
