-- ===== src/HashMap/Insert.antt =====
-- hash_map_insert of hash_map.c.
use tcp_fuzz.Prelude.{ℕ, ◌+◌, ◌%◌, ◌^◌, ◌<◌, ◌≡◌, refl, sym, ap, ◌∙◌, arith}
use tcp_fuzz.Prelude.{◌==◌, if◌then◌else◌, Option, none, some, length}
use tcp_fuzz.Prelude.{Bool-cases, inl, inr}
use tcp_fuzz.Prelude.{ltb, leb, ◌&&◌}
use tcp_fuzz.HashMap.{HashNode, HashMap, hash_bucket_num, hash_map_link}
use tcp_fuzz.HashMap.{make_room, hash_map_insert, hash_map_get, max_buckets}
use tcp_fuzz.HashMap.Chain.{count, find-none}
use tcp_fuzz.HashMap.Invariant.{bucket, IsWellFormed, hash_bucket_num-bound, link-count, link-find}
use tcp_fuzz.HashMap.Invariant.{link-length, link-bucket_num, link-num_buckets}
use tcp_fuzz.HashMap.Lookup.{same_bucket}
use tcp_fuzz.HashMap.Grow.{grow-IsWellFormed, get-grow, positive}

module _ (hash : ℕ → ℕ) where
  pub bucket_num-bound :
      (map : HashMap) (k : ℕ)
      → IsWellFormed hash map
      → hash_bucket_num hash map k < length map.buckets
  bucket_num-bound map k w = omega (
    arith,
    w.sized,
    hash_bucket_num-bound hash map k (positive map.num_buckets w.exponent w.power),
  )

  link-IsWellFormed :
      (map : HashMap) (node : HashNode)
      → IsWellFormed hash map
      → count node.key (bucket map (hash_bucket_num hash map node.key)) ≡ 0
      → IsWellFormed hash (hash_map_link hash map node)
  link-IsWellFormed map node w h =
      let inside = bucket_num-bound map node.key w in
      record {
        exponent = w.exponent;
        power = link-num_buckets hash map node ∙ w.power;
        sized = link-length hash map node ∙ w.sized ∙ sym (link-num_buckets hash map node);
        placed = λ i k ne. ground (
          arith,
          link-count hash map node i k inside,
          link-bucket_num hash map node k,
          w.placed i k,
          same_bucket hash map node.key k,
        );
        once = λ k.
            let absent : node.key ≡ k → count k (bucket map (hash_bucket_num hash map k)) ≡ 0 =
              λ e. rw⁻¹ (e) h in
            ground (
              arith,
              link-count hash map node (hash_bucket_num hash (hash_map_link hash map node) k) k
                  inside,
              link-bucket_num hash map node k,
              w.once k,
              absent,
            );
      }

  make_room-IsWellFormed :
      (map : HashMap) → IsWellFormed hash map → IsWellFormed hash (make_room hash map)
  unfolding make_room
  make_room-IsWellFormed map w =
      elim (Bool-cases (leb map.num_buckets map.num_keys && ltb map.num_buckets max_buckets)) [
        | inl e ↦ rw (e) (grow-IsWellFormed hash map w)
        | inr e ↦ rw (e) w
      ]

  get-make_room :
      (map : HashMap) (k : ℕ)
      → IsWellFormed hash map
      → hash_map_get hash (make_room hash map) k ≡ hash_map_get hash map k
  unfolding make_room
  get-make_room map k w =
      elim (Bool-cases (leb map.num_buckets map.num_keys && ltb map.num_buckets max_buckets)) [
        | inl e ↦ rw (e) (get-grow hash map k w)
        | inr e ↦ rw (e) refl
      ]

  pub insert-IsWellFormed :
      (map : HashMap) (key value : ℕ)
      → IsWellFormed hash map
      → hash_map_get hash map key ≡ none
      → IsWellFormed hash (hash_map_insert hash map key value)
  unfolding hash_map_insert hash_bucket_num hash_map_get
  insert-IsWellFormed map key value w h =
      let room = make_room hash map in
      let v = make_room-IsWellFormed map w in
      let counted : HashMap = record room { num_keys = (room.num_keys + 1) % 2 ^ 64 } in
      link-IsWellFormed counted (record { key = key; value = value })
        (record {
          exponent = v.exponent;
          power = v.power;
          sized = v.sized;
          placed = v.placed;
          once = v.once;
        })
        (find-none key _ (get-make_room map key w ∙ h))

  pub get-insert :
      (map : HashMap) (key value k : ℕ)
      → IsWellFormed hash map
      → hash_map_get hash (hash_map_insert hash map key value) k
        ≡ (if key == k then some value else hash_map_get hash map k)
  unfolding hash_map_insert hash_map_get hash_bucket_num
  get-insert map key value k w =
      let room = make_room hash map in
      let v = make_room-IsWellFormed map w in
      let counted : HashMap = record room { num_keys = (room.num_keys + 1) % 2 ^ 64 } in
      link-find hash counted (record { key = key; value = value }) k (bucket_num-bound room key v)
      ∙ ap (λ (o : Option ℕ). if key == k then some value else o) (get-make_room map k w)
