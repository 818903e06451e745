-- ===== src/HashMap.antt =====
-- hash_map.c: a hash map from u32 to u32, with chained buckets, that doubles when it is full.
-- A chain is a list of nodes. `hash` is MurmurHash3_x86_32 of the key with seed 0, as a `size_t`.
pub mod Chain
pub mod Invariant
pub mod Lookup
pub mod Grow
pub mod New
pub mod Insert
pub mod Set
pub mod Refinement
use tcp_fuzz.Prelude.{ℕ, zero, suc, ◌+◌, ◌-◌, ◌*◌, ◌%◌, ◌^◌, ◌==◌, ltb, leb, if◌then◌else◌, ◌&&◌}
use tcp_fuzz.Prelude.{
  Bool, true, false, Option, none, some, List, [], ◌∷◌, ◌++◌, get_or, set, replicate,
}

pub record HashNode : Type 0 where
  pub key : ℕ
  pub value : ℕ

pub record HashMap : Type 0 where
  pub num_keys : ℕ
  pub num_buckets : ℕ
  pub buckets : List (List HashNode)

abbrev pub max_buckets : ℕ
max_buckets = 2 ^ 30

-- `while (buckets < num_keys && buckets < MAX_BUCKETS) buckets <<= 1`, for a number of rounds: 30
-- rounds reach MAX_BUCKETS.
unfoldable pub grow_count : ℕ → ℕ → ℕ → ℕ
grow_count zero num_keys buckets = buckets
grow_count (suc rounds) num_keys buckets =
    let rest = grow_count rounds num_keys (buckets * 2) in
    if ltb buckets num_keys && ltb buckets max_buckets then rest else buckets

unfoldable pub hash_map_pick_bucket_count : ℕ → ℕ
unfolding grow_count
hash_map_pick_bucket_count num_keys = grow_count 30 num_keys 1

unfoldable pub hash_map_new : ℕ → HashMap
unfolding hash_map_pick_bucket_count
hash_map_new num_keys =
    let n = hash_map_pick_bucket_count num_keys in
    record { num_keys = 0; num_buckets = n; buckets = replicate n [] }

-- The first node of a chain with the key: its value.
unfoldable pub find : ℕ → List HashNode → Option ℕ
find key [] = none
find key (node ∷ rest) =
    let later = find key rest in if node.key == key then some node.value else later

-- The chain with the value of the first such node replaced.
unfoldable pub update : ℕ → ℕ → List HashNode → List HashNode
update key value [] = []
update key value (node ∷ rest) =
    let later = update key value rest in
    if node.key == key then record node { value = value } ∷ rest else node ∷ later

-- All nodes, bucket by bucket.
unfoldable pub concat : List (List HashNode) → List HashNode
concat [] = []
concat (chain ∷ rest) = chain ++ concat rest

module _ (hash : ℕ → ℕ) where
  -- `hash & bucket_mask`: the mask is one less than the number of buckets, which is a power of two.
  unfoldable pub hash_bucket_num : HashMap → ℕ → ℕ
  hash_bucket_num map key = hash key % map.num_buckets

  unfoldable pub hash_map_link : HashMap → HashNode → HashMap
  unfolding hash_bucket_num
  hash_map_link map node =
      let n = hash_bucket_num map node.key in
      record map { buckets = set map.buckets n (node ∷ get_or map.buckets n []) }

  unfoldable pub link_all : HashMap → List HashNode → HashMap
  unfolding hash_map_link
  link_all map [] = map
  link_all map (node ∷ nodes) = link_all (hash_map_link map node) nodes

  unfoldable pub hash_map_grow : HashMap → HashMap
  unfolding link_all concat
  hash_map_grow map =
      link_all
        (record map {
          num_buckets = map.num_buckets * 2;
          buckets = replicate (map.num_buckets * 2) [];
        })
        (concat map.buckets)

  -- The map that hash_map_insert puts the node in: it grows at a load factor of 1.
  unfoldable pub make_room : HashMap → HashMap
  unfolding hash_map_grow
  make_room map =
      if leb map.num_buckets map.num_keys && ltb map.num_buckets max_buckets
      then hash_map_grow map
      else map

  unfoldable pub hash_map_insert : HashMap → ℕ → ℕ → HashMap
  unfolding make_room hash_map_link
  hash_map_insert map key value =
      let room = make_room map in
      hash_map_link (record room { num_keys = (room.num_keys + 1) % 2 ^ 64 })
        (record { key = key; value = value })

  unfoldable pub hash_map_set : HashMap → ℕ → ℕ → HashMap
  unfolding hash_bucket_num hash_map_insert find update
  hash_map_set map key value =
      let n = hash_bucket_num map key in
      let chain = get_or map.buckets n [] in
      elim (find key chain) [
        | some old ↦ record map { buckets = set map.buckets n (update key value chain) }
        | none ↦ hash_map_insert map key value
      ]

  unfoldable pub hash_map_get : HashMap → ℕ → Option ℕ
  unfolding hash_bucket_num find
  hash_map_get map key = find key (get_or map.buckets (hash_bucket_num map key) [])
