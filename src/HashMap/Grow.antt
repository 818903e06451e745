-- ===== src/HashMap/Grow.antt =====
-- hash_map_grow of hash_map.c.
use tcp_fuzz.Prelude.{ℕ, zero, suc, ◌*◌, ◌^◌, ◌<◌, ◌≡◌, refl, sym, ap, ◌∙◌, arith}
use tcp_fuzz.Prelude.{◌==◌, if◌then◌else◌, List, [], length}
use tcp_fuzz.Prelude.{get_or, replicate, length-replicate, get_or-replicate}
use tcp_fuzz.HashMap.{HashNode, HashMap, find, concat, hash_bucket_num}
use tcp_fuzz.HashMap.{hash_map_grow, hash_map_get}
use tcp_fuzz.HashMap.Chain.{count, find_last, find_last-find, count-concat, find-concat}
use tcp_fuzz.HashMap.Invariant.{bucket, IsWellFormed}
use tcp_fuzz.HashMap.Lookup.{link_all-num_buckets, link_all-length, link_all-count, link_all-find}
use tcp_fuzz.HashMap.Lookup.{same_num_buckets}

pub positive : (n e : ℕ) → n ≡ 2 ^ e → 0 < n
positive n zero h = omega arith
positive n (suc e) h = omega (arith, positive (2 ^ e) e refl)

module _ (hash : ℕ → ℕ) where
  -- The map with the new array that hash_map_grow links the nodes into.
  abbrev emptied : HashMap → HashMap
  emptied map = record map {
    num_buckets = map.num_buckets * 2;
    buckets = replicate (map.num_buckets * 2) [];
  }

  empty_bucket : (n i : ℕ) → get_or (replicate {A = List HashNode} n []) i [] ≡ []
  empty_bucket n i = get_or-replicate {A = List HashNode} n i []

  grow-count :
      (map : HashMap) (i k : ℕ)
      → IsWellFormed hash map
      → count k (bucket (hash_map_grow hash map) i) ≡ (
          if i == hash_bucket_num hash (emptied map) k
          then count k (bucket map (hash_bucket_num hash map k))
          else 0)
  unfolding hash_map_grow count
  grow-count map i k w =
      let e =
        link_all-count hash (emptied map) (concat map.buckets) i k
          (omega (arith, positive map.num_buckets w.exponent w.power))
          (length-replicate {A = List HashNode} (map.num_buckets * 2) []) in
      ground (
        arith,
        e,
        ap (count k) (empty_bucket (map.num_buckets * 2) i),
        count-concat k map.buckets (hash_bucket_num hash map k) (λ j ne. w.placed j k ne),
      )

  grow-num_buckets : (map : HashMap) → (hash_map_grow hash map).num_buckets ≡ map.num_buckets * 2
  unfolding hash_map_grow
  grow-num_buckets map = link_all-num_buckets hash (emptied map) (concat map.buckets)

  grow-bucket_num :
      (map : HashMap) (k : ℕ)
      → hash_bucket_num hash (hash_map_grow hash map) k ≡ hash_bucket_num hash (emptied map) k
  grow-bucket_num map k =
      same_num_buckets hash (hash_map_grow hash map) (emptied map) k (grow-num_buckets map)

  grow-length : (map : HashMap) → length (hash_map_grow hash map).buckets ≡ map.num_buckets * 2
  unfolding hash_map_grow
  grow-length map =
      link_all-length hash (emptied map) (concat map.buckets)
      ∙ length-replicate {A = List HashNode} (map.num_buckets * 2) []

  pub grow-IsWellFormed :
      (map : HashMap) → IsWellFormed hash map → IsWellFormed hash (hash_map_grow hash map)
  grow-IsWellFormed map w = record {
    exponent = suc w.exponent;
    power = omega (arith, grow-num_buckets map, w.power);
    sized = grow-length map ∙ sym (grow-num_buckets map);
    placed = λ i k ne. ground (arith, grow-count map i k w, grow-bucket_num map k);
    once = λ k. ground (
      arith,
      grow-count map (hash_bucket_num hash (hash_map_grow hash map) k) k w,
      grow-bucket_num map k,
      w.once k,
    );
  }

  pub get-grow :
      (map : HashMap) (k : ℕ)
      → IsWellFormed hash map
      → hash_map_get hash (hash_map_grow hash map) k ≡ hash_map_get hash map k
  unfolding hash_map_get hash_map_grow
  get-grow map k w =
      let n = hash_bucket_num hash map k in
      let spread =
        link_all-find hash (emptied map) (concat map.buckets) k
          (omega (arith, positive map.num_buckets w.exponent w.power))
          (length-replicate {A = List HashNode} (map.num_buckets * 2) []) in
      let whole = count-concat k map.buckets n (λ j ne. w.placed j k ne) in
      ap (λ (j : ℕ). find k (bucket (hash_map_grow hash map) j)) (grow-bucket_num map k)
      ∙ spread
      ∙ ap (λ (xs : List HashNode). find_last k (concat map.buckets) (find k xs))
          (empty_bucket (map.num_buckets * 2) (hash_bucket_num hash (emptied map) k))
      ∙ find_last-find k (concat map.buckets) (omega (arith, whole, w.once k))
      ∙ find-concat k map.buckets n (λ j ne. w.placed j k ne)
