-- ===== src/HashMap/Refinement.antt =====
-- The hash map as a finite map: what is read after any number of writes.
use tcp_fuzz.Prelude.{ℕ, ◌==◌, if◌then◌else◌, Option, none, some, List, [], ◌∷◌, ◌≡◌, refl, ap, ◌∙◌}
use tcp_fuzz.HashMap.{HashMap, hash_map_new, hash_map_get, hash_map_set}
use tcp_fuzz.HashMap.Invariant.{IsWellFormed}
use tcp_fuzz.HashMap.New.{get-hash_map_new}
use tcp_fuzz.HashMap.Set.{get-set, set-IsWellFormed}

-- A call of hash_map_set.
pub record Write : Type 0 where
  pub key : ℕ
  pub value : ℕ

-- The map as a function, and what a write is to it.
abbrev pub Store : Type 0
Store = ℕ → Option ℕ

abbrev pub put : Write → Store → Store
put write store k = if write.key == k then some write.value else store k

unfoldable pub put_all : List Write → Store → Store
put_all [] store = store
put_all (write ∷ writes) store = put_all writes (put write store)

module _ (hash : ℕ → ℕ) where
  -- The calls one after the other.
  pub run_writes : List Write → HashMap → HashMap
  run_writes [] map = map
  run_writes (write ∷ writes) map = run_writes writes (hash_map_set hash map write.key write.value)

  put_all_same :
      (writes : List Write) (a b : Store)
      → ((k : ℕ) → a k ≡ b k)
      → (k : ℕ) → put_all writes a k ≡ put_all writes b k
  unfolding put_all
  put_all_same [] a b h k = h k
  put_all_same (write ∷ writes) a b h k =
      put_all_same writes (put write a) (put write b)
        (λ j. ap (λ o. if write.key == j then some write.value else o) (h j)) k

  run_writes-put_all :
      (writes : List Write) (map : HashMap)
      → IsWellFormed hash map
      → (k : ℕ)
      → hash_map_get hash (run_writes writes map) k ≡ put_all writes (hash_map_get hash map) k
  unfolding run_writes put_all
  run_writes-put_all [] map h k = refl
  run_writes-put_all (write ∷ writes) map h k =
      run_writes-put_all writes (hash_map_set hash map write.key write.value)
        (set-IsWellFormed hash map write.key write.value h) k
      ∙ put_all_same writes (hash_map_get hash (hash_map_set hash map write.key write.value))
          (put write (hash_map_get hash map)) (λ j. get-set hash map write.key write.value j h) k

  -- Whatever the hash function is: after any calls of hash_map_set on a new map, made for any number of
  -- keys, hash_map_get reads what a function does that is none everywhere at first, and to which the
  -- same writes are made one after the other.
  pub hash_map_refines :
      (num_keys : ℕ) (writes : List Write) (k : ℕ)
      → hash_map_get hash (run_writes writes (hash_map_new num_keys)) k
        ≡ put_all writes (λ j. none) k
  hash_map_refines num_keys writes k =
      run_writes-put_all writes (hash_map_new num_keys) (get-hash_map_new hash num_keys k).2 k
      ∙ put_all_same writes (hash_map_get hash (hash_map_new num_keys)) (λ j. none)
          (λ j. (get-hash_map_new hash num_keys j).0) k
