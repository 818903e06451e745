-- ===== src/HashMap/Chain.antt =====
-- Chains of nodes of hash_map.c: how often a key stands in one, find and update.
use tcp_fuzz.Prelude.{ℕ, zero, suc, ◌+◌, ◌≤◌, ◌≡◌, refl, ◌∙◌, ◌≢◌, arith, ◌==◌}
use tcp_fuzz.Prelude.{Option, none, some, List, [], ◌∷◌, ◌++◌, get_or, if◌then◌else◌}
use tcp_fuzz.HashMap.{HashNode, find, update, concat}

unfoldable pub count : ℕ → List HashNode → ℕ
count key [] = 0
count key (node ∷ rest) = (if node.key == key then 1 else 0) + count key rest

-- The last node of a chain with the key, or a default.
unfoldable pub find_last : ℕ → List HashNode → Option ℕ → Option ℕ
find_last key [] d = d
find_last key (node ∷ rest) d = find_last key rest (if node.key == key then some node.value else d)

pub find-absent : (key : ℕ) (xs : List HashNode) → count key xs ≡ 0 → find key xs ≡ none
unfolding find count
find-absent key [] h = refl
find-absent key (node ∷ xs) h = ground (arith, find-absent key xs)

pub find-none : (key : ℕ) (xs : List HashNode) → find key xs ≡ none → count key xs ≡ 0
unfolding find count
find-none key [] h = refl
find-none key (node ∷ xs) h = ground (arith, find-none key xs)

pub find_last-absent :
    (key : ℕ) (xs : List HashNode) (d : Option ℕ) → count key xs ≡ 0 → find_last key xs d ≡ d
unfolding find_last count
find_last-absent key [] d h = refl
find_last-absent key (node ∷ xs) d h = ground (arith, find_last-absent key xs d)

pub find_last-find :
    (key : ℕ) (xs : List HashNode) → count key xs ≤ 1 → find_last key xs none ≡ find key xs
unfolding find_last find count
find_last-find key [] h = refl
find_last-find key (node ∷ xs) h =
    ground (arith, find_last-find key xs, find_last-absent key xs (some node.value))

pub count-append :
    (key : ℕ) (xs ys : List HashNode) → count key (xs ++ ys) ≡ count key xs + count key ys
unfolding count
count-append key [] ys = omega arith
count-append key (node ∷ xs) ys = omega (arith, count-append key xs ys)

pub find-append_left :
    (key : ℕ) (xs ys : List HashNode) → count key ys ≡ 0 → find key (xs ++ ys) ≡ find key xs
unfolding find
find-append_left key [] ys h = find-absent key ys h
find-append_left key (node ∷ xs) ys h = ground (arith, find-append_left key xs ys h)

pub find-append_right :
    (key : ℕ) (xs ys : List HashNode) → count key xs ≡ 0 → find key (xs ++ ys) ≡ find key ys
unfolding find count
find-append_right key [] ys h = refl
find-append_right key (node ∷ xs) ys h = ground (arith, find-append_right key xs ys)

pub count-update :
    (key value k : ℕ) (xs : List HashNode) → count k (update key value xs) ≡ count k xs
unfolding count update
count-update key value k [] = refl
count-update key value k (node ∷ xs) = ground (arith, count-update key value k xs)

pub find-update_self :
    (key value old : ℕ) (xs : List HashNode)
    → find key xs ≡ some old
    → find key (update key value xs) ≡ some value
unfolding find update
find-update_self key value old [] h = ground arith
find-update_self key value old (node ∷ xs) h = ground (arith, find-update_self key value old xs)

pub find-update_ne :
    (key value k : ℕ) (xs : List HashNode) → key ≢ k → find k (update key value xs) ≡ find k xs
unfolding find update
find-update_ne key value k [] h = refl
find-update_ne key value k (node ∷ xs) h = ground (arith, find-update_ne key value k xs h)

-- A key that stands in one bucket only.
pub count-concat_none :
    (key : ℕ) (bs : List (List HashNode))
    → ((i : ℕ) → count key (get_or bs i []) ≡ 0)
    → count key (concat bs) ≡ 0
unfolding concat count
count-concat_none key [] h = refl
count-concat_none key (b ∷ bs) h =
    omega (arith, count-append key b (concat bs), h 0, count-concat_none key bs (λ i. h (suc i)))

pub count-concat :
    (key : ℕ) (bs : List (List HashNode)) (j : ℕ)
    → ((i : ℕ) → i ≢ j → count key (get_or bs i []) ≡ 0)
    → count key (concat bs) ≡ count key (get_or bs j [])
unfolding concat
count-concat key [] j h = refl
count-concat key (b ∷ bs) zero h =
    omega (
      arith,
      count-append key b (concat bs),
      count-concat_none key bs (λ i. h (suc i) (omega arith)),
    )
count-concat key (b ∷ bs) (suc j) h = omega (
  arith,
  count-append key b (concat bs),
  h 0 (omega arith),
  count-concat key bs j (λ i ne. h (suc i) (omega arith)),
)

pub find-concat :
    (key : ℕ) (bs : List (List HashNode)) (j : ℕ)
    → ((i : ℕ) → i ≢ j → count key (get_or bs i []) ≡ 0)
    → find key (concat bs) ≡ find key (get_or bs j [])
unfolding concat
find-concat key [] j h = refl
find-concat key (b ∷ bs) zero h =
    find-append_left key b (concat bs) (count-concat_none key bs (λ i. h (suc i) (omega arith)))
find-concat key (b ∷ bs) (suc j) h =
    find-append_right key b (concat bs) (h 0 (omega arith))
    ∙ find-concat key bs j (λ i ne. h (suc i) (omega arith))
