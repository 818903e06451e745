-- ===== src/HashMap/Set.antt =====
-- hash_map_set and hash_map_get of hash_map.c.
use tcp_fuzz.Prelude.{ℕ, ◌≡◌, refl, sym, ap, ◌∙◌, ◌≢◌, arith}
use tcp_fuzz.Prelude.{◌==◌, if◌then◌else◌, none, some, [], set}
use tcp_fuzz.Prelude.{
  get_or-set_self, get_or-set_ne, length-set, Bool-cases, Option-cases, inl, inr,
}
use tcp_fuzz.Prelude.{==→eq, ==→ne}
use tcp_fuzz.HashMap.{HashMap, update, hash_bucket_num}
use tcp_fuzz.HashMap.{hash_map_insert, hash_map_set, hash_map_get}
use tcp_fuzz.HashMap.Chain.{count, count-update, find-update_self, find-update_ne}
use tcp_fuzz.HashMap.Invariant.{bucket, IsWellFormed}
use tcp_fuzz.HashMap.Insert.{bucket_num-bound, insert-IsWellFormed, get-insert}

module _ (hash : ℕ → ℕ) where
  -- The map after the value was replaced in its chain.
  abbrev replaced : HashMap → ℕ → ℕ → HashMap
  replaced map key value =
      let n = hash_bucket_num hash map key in
      record map { buckets = set map.buckets n (update key value (bucket map n)) }

  set-found :
      (map : HashMap) (key value old : ℕ)
      → hash_map_get hash map key ≡ some old
      → hash_map_set hash map key value ≡ replaced map key value
  unfolding hash_map_set hash_map_get
  set-found map key value old e = rw (e, hash_map_set) refl

  set-missing :
      (map : HashMap) (key value : ℕ)
      → hash_map_get hash map key ≡ none
      → hash_map_set hash map key value ≡ hash_map_insert hash map key value
  unfolding hash_map_set hash_map_get
  set-missing map key value e = rw (e, hash_map_set) refl

  replaced-bucket_ne :
      (map : HashMap) (key value i : ℕ)
      → i ≢ hash_bucket_num hash map key
      → bucket (replaced map key value) i ≡ bucket map i
  replaced-bucket_ne map key value i h =
      get_or-set_ne map.buckets (hash_bucket_num hash map key) i _ [] (λ e. h (sym e))

  replaced-bucket_self :
      (map : HashMap) (key value : ℕ)
      → IsWellFormed hash map
      → bucket (replaced map key value) (hash_bucket_num hash map key)
        ≡ update key value (bucket map (hash_bucket_num hash map key))
  replaced-bucket_self map key value w =
      get_or-set_self map.buckets (hash_bucket_num hash map key) _ []
        (bucket_num-bound hash map key w)

  replaced-count :
      (map : HashMap) (key value i k : ℕ)
      → IsWellFormed hash map
      → count k (bucket (replaced map key value) i) ≡ count k (bucket map i)
  replaced-count map key value i k w = elim (Bool-cases (i == hash_bucket_num hash map key)) [
    | inl e ↦
        let same : i ≡ hash_bucket_num hash map key = ==→eq _ _ e in
        rw (same, replaced-bucket_self map key value w)
          (count-update key value k (bucket map (hash_bucket_num hash map key)))
    | inr e ↦ ap (count k) (replaced-bucket_ne map key value i (==→ne _ _ e))
  ]

  replaced-IsWellFormed :
      (map : HashMap) (key value : ℕ)
      → IsWellFormed hash map
      → IsWellFormed hash (replaced map key value)
  unfolding hash_bucket_num
  replaced-IsWellFormed map key value w = record {
    exponent = w.exponent;
    power = w.power;
    sized = length-set map.buckets _ _ ∙ w.sized;
    placed = λ i k ne. replaced-count map key value i k w ∙ w.placed i k ne;
    once =
        λ k. omega (arith, replaced-count map key value (hash_bucket_num hash map k) k w, w.once k);
  }

  get-replaced :
      (map : HashMap) (key value old k : ℕ)
      → IsWellFormed hash map
      → hash_map_get hash map key ≡ some old
      → hash_map_get hash (replaced map key value) k
        ≡ (if key == k then some value else hash_map_get hash map k)
  unfolding hash_map_get hash_bucket_num
  get-replaced map key value old k w found = elim (Bool-cases (key == k)) [
    | inl e ↦
        let same : k ≡ key = sym (==→eq _ _ e) in
        rw (e, same, replaced-bucket_self map key value w)
          (find-update_self key value old (bucket map (hash_bucket_num hash map key)) found)
    | inr e ↦ elim (Bool-cases (hash_bucket_num hash map k == hash_bucket_num hash map key)) [
      | inl f ↦
          let same : hash_bucket_num hash map k ≡ hash_bucket_num hash map key = ==→eq _ _ f in
          rw (e, same, replaced-bucket_self map key value w)
            (find-update_ne key value k (bucket map (hash_bucket_num hash map key)) (==→ne _ _ e))
      | inr f ↦ rw (e, replaced-bucket_ne map key value _ (==→ne _ _ f)) refl
    ]
  ]

  -- In a well-formed map, hash_map_get after hash_map_set finds the new value under the key that was
  -- set and what it found before under every other, whether the key was there, or was inserted, or the
  -- map had to grow for it.
  pub get-set :
      (map : HashMap) (key value k : ℕ)
      → IsWellFormed hash map
      → hash_map_get hash (hash_map_set hash map key value) k
        ≡ (if key == k then some value else hash_map_get hash map k)
  get-set map key value k w = elim (Option-cases (hash_map_get hash map key)) [
    | inl e ↦ rw (set-missing map key value e) (get-insert hash map key value k w)
    | inr (old, e) ↦ rw (set-found map key value old e) (get-replaced map key value old k w e)
  ]

  -- hash_map_set keeps a map well formed.
  pub set-IsWellFormed :
      (map : HashMap) (key value : ℕ)
      → IsWellFormed hash map
      → IsWellFormed hash (hash_map_set hash map key value)
  set-IsWellFormed map key value w = elim (Option-cases (hash_map_get hash map key)) [
    | inl e ↦ rw (set-missing map key value e) (insert-IsWellFormed hash map key value w e)
    | inr (old, e) ↦ rw (set-found map key value old e) (replaced-IsWellFormed map key value w)
  ]
