-- ===== src/Fuzz/Compare.antt =====
-- fuzz_test_result_compare of fuzz_test_helper.c: the first run in which two stacks differ.
-- A string is a list of character codes, NULL is `none`, and an array holds 1000 of these.
use tcp_fuzz.Prelude.{ℕ, zero, suc, ◌+◌, ◌≤◌, ◌<◌, ◌≡◌, refl, ◌≢◌, ◌==◌, arith, if◌then◌else◌}
use tcp_fuzz.Prelude.{
  Bool, true, false, ◌&&◌, not, Option, none, some, List, [], ◌∷◌, get_or, tests,
}
use tcp_fuzz.Prelude.{Bool-cases, Option-cases, false_true, sym, inl, inr, ==→eq, ==_refl}

-- `strcmp(a, b) == 0`
unfoldable pub same_string : List ℕ → List ℕ → Bool
same_string [] [] = true
same_string [] (y ∷ ys) = false
same_string (x ∷ xs) [] = false
same_string (x ∷ xs) (y ∷ ys) = (x == y) && same_string xs ys

-- A string that is missing on either side is not compared.
unfoldable pub differs : Option (List ℕ) → Option (List ℕ) → Bool
unfolding same_string
differs none y = false
differs (some x) none = false
differs (some x) (some y) = not (same_string x y)

-- The loop from `i` on, for the rounds left; `none` is -1.
unfoldable pub compare_from : ℕ → ℕ → List (Option (List ℕ)) → List (Option (List ℕ)) → Option ℕ
unfolding differs
compare_from zero i a b = none
compare_from (suc rounds) i a b =
    let rest = compare_from rounds (i + 1) a b in
    if differs (get_or a i none) (get_or b i none) then some i else rest

unfoldable pub fuzz_test_result_compare : List (Option (List ℕ)) → List (Option (List ℕ)) → Option ℕ
unfolding compare_from
fuzz_test_result_compare a b = compare_from 1000 0 a b

same_string_lem : (xs ys : List ℕ) → same_string xs ys ≡ true → xs ≡ ys
unfolding same_string
same_string_lem [] [] e = refl
same_string_lem [] (y ∷ ys) e = cc
same_string_lem (x ∷ xs) [] e = cc
same_string_lem (x ∷ xs) (y ∷ ys) e = elim (Bool-cases (x == y)) [
  | inl h ↦ rw (==→eq x y h, same_string_lem xs ys (rw h at e)) refl
  | inr h ↦ false_true (rw h at e)
]

same_string_refl : (xs : List ℕ) → same_string xs xs ≡ true
unfolding same_string
same_string_refl [] = refl
same_string_refl (x ∷ xs) = rw (==_refl x) (same_string_refl xs)

-- Both runs have a result at `i`, and the two are not the same.
pub record Differs (a b : List (Option (List ℕ))) (i : ℕ) : Type 0 where
  pub left : List ℕ
  pub right : List ℕ
  pub has_left : get_or a i none ≡ some left
  pub has_right : get_or b i none ≡ some right
  pub not_same : left ≢ right

differs_lem :
    (a b : List (Option (List ℕ))) (i : ℕ)
    → differs (get_or a i none) (get_or b i none) ≡ true
    → Differs a b i
unfolding differs
differs_lem a b i e = elim (Option-cases (get_or a i none)) [
  | inl h ↦ false_true (rw h at e)
  | inr (x, h) ↦ elim (Option-cases (get_or b i none)) [
    | inl k ↦ false_true (rw (h, k) at e)
    | inr (y, k) ↦ record {
      left = x;
      right = y;
      has_left = h;
      has_right = k;
      not_same = λ p. false_true (rw (h, k, p, same_string_refl y) at e);
    }
  ]
]

agrees_lem :
    (a b : List (Option (List ℕ))) (i : ℕ) (x y : List ℕ)
    → differs (get_or a i none) (get_or b i none) ≡ false
    → get_or a i none ≡ some x
    → get_or b i none ≡ some y
    → x ≡ y
unfolding differs
agrees_lem a b i x y e h k = elim (Bool-cases (same_string x y)) [
  | inl p ↦ same_string_lem x y p
  | inr p ↦ false_true (sym (rw (h, k, p) at e))
]

-- Where compare_from stops.
compare_from-Differs :
    (rounds i n : ℕ) (a b : List (Option (List ℕ)))
    → compare_from rounds i a b ≡ some n
    → Differs a b n × (n < i + rounds)
unfolding compare_from
compare_from-Differs zero i n a b e = cc
compare_from-Differs (suc rounds) i n a b e =
    elim (Bool-cases (differs (get_or a i none) (get_or b i none))) [
      | inl d ↦
          let same : some i ≡ some n = rw (d, compare_from) at e in
          let here : i ≡ n = cc in (rw⁻¹ (here) (differs_lem a b i d), omega arith)
      | inr d ↦
          let (x, l) = compare_from-Differs rounds (i + 1) n a b (rw (d, compare_from) at e) in
          (x, omega arith)
    ]

-- The index of a difference, or else the given end.
abbrev pub limit : ℕ → Option ℕ → ℕ
limit end_ none = end_
limit end_ (some n) = n

compare_from-agrees :
    (rounds i j : ℕ) (a b : List (Option (List ℕ))) (x y : List ℕ)
    → i ≤ j
    → j < limit (i + rounds) (compare_from rounds i a b)
    → get_or a j none ≡ some x
    → get_or b j none ≡ some y
    → x ≡ y
unfolding compare_from
compare_from-agrees zero i j a b x y h l ha hb = absurd (omega arith)
compare_from-agrees (suc rounds) i j a b x y h l ha hb =
    elim (Bool-cases (differs (get_or a i none) (get_or b i none))) [
      | inl d ↦ absurd (omega (arith, rw (d, compare_from) at l))
      | inr d ↦ elim (Bool-cases (i == j)) [
        | inl e ↦ let here : i ≡ j = ==→eq i j e in agrees_lem a b j x y (rw here at d) ha hb
        | inr e ↦
            let next : i + suc rounds ≡ i + 1 + rounds = omega arith in
            compare_from-agrees rounds (i + 1) j a b x y (omega (tests, e))
              (rw (d, next, compare_from) at l) ha hb
      ]
    ]

-- Where fuzz_test_result_compare answers an index, it is below 1000, and both arrays have a string
-- there, not the same.
pub fuzz_test_result_compare-Differs :
    (a b : List (Option (List ℕ))) (n : ℕ)
    → fuzz_test_result_compare a b ≡ some n
    → Differs a b n × (n < 1000)
unfolding fuzz_test_result_compare
fuzz_test_result_compare-Differs a b n e = compare_from-Differs 1000 0 n a b e

-- Before the index that fuzz_test_result_compare answers, or anywhere below 1000 if it answers -1,
-- strings that both arrays have are the same.
pub fuzz_test_result_compare-agrees :
    (a b : List (Option (List ℕ))) (j : ℕ) (x y : List ℕ)
    → j < limit 1000 (fuzz_test_result_compare a b)
    → get_or a j none ≡ some x
    → get_or b j none ≡ some y
    → x ≡ y
unfolding fuzz_test_result_compare
fuzz_test_result_compare-agrees a b j x y l ha hb =
    compare_from-agrees 1000 0 j a b x y (omega arith) l ha hb
