-- ===== src/HashMap/Lookup.antt =====
-- Linking several nodes of hash_map.c, one after the other.
use tcp_fuzz.Prelude.{ℕ, ◌+◌, ◌%◌, ◌<◌, ◌≡◌, refl, ap, ◌∙◌, arith}
use tcp_fuzz.Prelude.{◌==◌, if◌then◌else◌, List, [], ◌∷◌, length}
use tcp_fuzz.HashMap.{HashNode, HashMap, find, hash_bucket_num, hash_map_link, link_all}
use tcp_fuzz.HashMap.Chain.{count, find_last}
use tcp_fuzz.HashMap.Invariant.{bucket, hash_bucket_num-bound, link-count, link-find}
use tcp_fuzz.HashMap.Invariant.{link-length, link-bucket_num, link-num_buckets}

module _ (hash : ℕ → ℕ) where
  pub link_all-num_buckets :
      (map : HashMap) (nodes : List HashNode)
      → (link_all hash map nodes).num_buckets ≡ map.num_buckets
  unfolding link_all
  link_all-num_buckets map [] = refl
  link_all-num_buckets map (node ∷ nodes) =
      link_all-num_buckets (hash_map_link hash map node) nodes ∙ link-num_buckets hash map node

  pub link_all-length :
      (map : HashMap) (nodes : List HashNode)
      → length (link_all hash map nodes).buckets ≡ length map.buckets
  unfolding link_all
  link_all-length map [] = refl
  link_all-length map (node ∷ nodes) =
      link_all-length (hash_map_link hash map node) nodes ∙ link-length hash map node

  pub link_all-num_keys :
      (map : HashMap) (nodes : List HashNode) → (link_all hash map nodes).num_keys ≡ map.num_keys
  unfolding link_all hash_map_link
  link_all-num_keys map [] = refl
  link_all-num_keys map (node ∷ nodes) = link_all-num_keys (hash_map_link hash map node) nodes

  pub same_num_buckets :
      (map map' : HashMap) (k : ℕ)
      → map.num_buckets ≡ map'.num_buckets
      → hash_bucket_num hash map k ≡ hash_bucket_num hash map' k
  unfolding hash_bucket_num
  same_num_buckets map map' k e = ap (λ (n : ℕ). hash k % n) e

  pub same_bucket :
      (map : HashMap) (j k : ℕ) → j ≡ k → hash_bucket_num hash map j ≡ hash_bucket_num hash map k
  same_bucket map j k e = ap (hash_bucket_num hash map) e

  pub link_all-count :
      (map : HashMap) (nodes : List HashNode) (i k : ℕ)
      → 0 < map.num_buckets
      → length map.buckets ≡ map.num_buckets
      → count k (bucket (link_all hash map nodes) i)
        ≡ (if i == hash_bucket_num hash map k then count k nodes else 0) + count k (bucket map i)
  unfolding link_all count
  link_all-count map [] i k h sized = ground arith
  link_all-count map (node ∷ nodes) i k h sized =
      let linked = hash_map_link hash map node in
      ground (
        arith,
        link_all-count linked nodes i k (omega (arith, link-num_buckets hash map node))
            (omega (arith, link-num_buckets hash map node, link-length hash map node)),
        link-count hash map node i k (omega (arith, hash_bucket_num-bound hash map node.key h)),
        link-bucket_num hash map node k,
        same_bucket map node.key k,
      )

  pub link_all-find :
      (map : HashMap) (nodes : List HashNode) (k : ℕ)
      → 0 < map.num_buckets
      → length map.buckets ≡ map.num_buckets
      → find k (bucket (link_all hash map nodes) (hash_bucket_num hash map k))
        ≡ find_last k nodes (find k (bucket map (hash_bucket_num hash map k)))
  unfolding link_all find_last
  link_all-find map [] k h sized = refl
  link_all-find map (node ∷ nodes) k h sized =
      let linked = hash_map_link hash map node in
      let ih =
        link_all-find linked nodes k (omega (arith, link-num_buckets hash map node))
          (omega (arith, link-num_buckets hash map node, link-length hash map node)) in
      ih
      ∙ ap (find_last k nodes)
          (link-find hash map node k (omega (arith, hash_bucket_num-bound hash map node.key h)))
