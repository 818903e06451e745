-- ===== src/TcpOptions/RoundTrip.antt =====
-- The loop over the options of a packet, tcp_options_iterator.c, on the wire bytes of options.
use tcp_fuzz.Prelude.{ℕ, zero, suc, ◌+◌, ◌≤◌, ◌≡◌, refl, sym, ap, ◌∙◌, ◌⊎◌, inl, inr, arith}
use tcp_fuzz.Prelude.{Option, none, some, List, [], ◌∷◌, ◌++◌, length, get_elem?, All}
use tcp_fuzz.Prelude.{leb, le→leb, gt→leb, if◌then◌else◌, length-append, take}
use tcp_fuzz.TcpOptions.{TcpOption, wire_bytes}
use tcp_fuzz.TcpOptions.Iterator.{
  OptionError, walk, visit, visited, option_length_at, tcp_options_begin,
}
use tcp_fuzz.TcpOptions.Iterator.{
  get_tcp_option_length, get_expected_tcp_option_length, length_error,
}
use tcp_fuzz.TcpOptions.Walk.{at, walk_step, after}
use mathlib.Core.List.{append_assoc}

-- A no-op or an end of one byte, or an option with a length byte that counts its bytes and is what
-- its kind asks for, if the kind is known.
pub record IsStandard (option : TcpOption) : Type 0 where
  pub expected : ℕ
  pub known : get_expected_tcp_option_length option.kind none ≡ (expected, none)
  pub counted :
      ((expected ≡ 1) × (option.option_length ≡ 1))
      ⊎ ((2 ≤ option.option_length)
          × (option.option_length ≡ length option.contents + 2)
          × ((expected ≡ 0) ⊎ (expected ≡ option.option_length)))

-- The bytes of several options, and where each starts.
unfoldable pub all_wire_bytes : List TcpOption → List ℕ
all_wire_bytes [] = []
all_wire_bytes (o ∷ os) = wire_bytes o ++ all_wire_bytes os

unfoldable pub starts : ℕ → List TcpOption → List ℕ
starts i [] = []
starts i (o ∷ os) = i ∷ starts (i + o.option_length) os

get_elem?-append :
    (pre : List ℕ) (x : ℕ) (rest : List ℕ) → get_elem? (pre ++ (x ∷ rest)) (length pre) ≡ some x
get_elem?-append [] x rest = refl
get_elem?-append (p ∷ pre) x rest = get_elem?-append pre x rest

get_elem?-append_next :
    (pre : List ℕ) (x y : ℕ) (rest : List ℕ)
    → get_elem? (pre ++ (x ∷ y ∷ rest)) (length pre + 1) ≡ some y
get_elem?-append_next [] x y rest = refl
get_elem?-append_next (p ∷ pre) x y rest =
    let one_more : suc (length pre) + 1 ≡ suc (length pre + 1) = omega arith in
    rw (one_more) (get_elem?-append_next pre x y rest)

take_all : (xs : List ℕ) (n : ℕ) → n ≡ length xs → take n xs ≡ xs
take_all [] zero e = refl
take_all [] (suc n) e = refl
take_all (x ∷ xs) zero e = absurd (omega arith)
take_all (x ∷ xs) (suc n) e = ap (λ (ys : List ℕ). x ∷ ys) (take_all xs n (omega arith))

short-wire_bytes : (o : TcpOption) → o.option_length ≡ 1 → wire_bytes o ≡ o.kind ∷ []
unfolding wire_bytes
short-wire_bytes o e = ap (λ (n : ℕ). take n (o.kind ∷ o.option_length ∷ o.contents)) e

long-wire_bytes :
    (o : TcpOption)
    → o.option_length ≡ length o.contents + 2
    → wire_bytes o ≡ o.kind ∷ o.option_length ∷ o.contents
unfolding wire_bytes
long-wire_bytes o e = take_all (o.kind ∷ o.option_length ∷ o.contents) o.option_length (omega arith)

pub length-wire_bytes :
    (o : TcpOption)
    → IsStandard o
    → (length (wire_bytes o) ≡ o.option_length) × (1 ≤ o.option_length)
length-wire_bytes o s = elim s.counted [
  | inl (one, e) ↦ (ap length (short-wire_bytes o e) ∙ sym e, omega arith)
  | inr (two, e, _) ↦ (ap length (long-wire_bytes o e) ∙ omega arith, omega arith)
]

-- The length of an option of one byte, and of one with a length byte, at its place among others.
at-short :
    (pre rest : List ℕ) (kind end_ : ℕ)
    → get_expected_tcp_option_length kind none ≡ (1, none)
    → option_length_at (pre ++ (kind ∷ rest)) (length pre) end_ none ≡ some (some 1, none)
unfolding option_length_at
at-short pre rest kind end_ known =
    rw (get_elem?-append pre kind rest, known, option_length_at) refl

at-long :
    (pre rest : List ℕ) (kind n end_ expected : ℕ)
    → get_expected_tcp_option_length kind none ≡ (expected, none)
    → 2 ≤ n
    → length pre + n ≤ end_
    → (expected ≡ 0) ⊎ (expected ≡ n)
    → option_length_at (pre ++ (kind ∷ n ∷ rest)) (length pre) end_ none ≡ some (some n, none)
unfolding option_length_at get_tcp_option_length length_error
at-long pre rest kind n end_ expected known two fits right =
    ground
      (arith, get_elem?-append pre kind (n ∷ rest), get_elem?-append_next pre kind n rest, known)

option_length_at-wire :
    (pre rest : List ℕ) (o : TcpOption) (end_ : ℕ)
    → IsStandard o
    → length pre + o.option_length ≤ end_
    → option_length_at (pre ++ (wire_bytes o ++ rest)) (length pre) end_ none
      ≡ some (some o.option_length, none)
option_length_at-wire pre rest o end_ s fits = elim s.counted [
  | inl (one, e) ↦
      rw (short-wire_bytes o e, e)
        (at-short pre rest o.kind end_ (s.known ∙ ap (λ (n : ℕ). (n, none)) one))
  | inr (two, e, right) ↦ rw (long-wire_bytes o e) (
      at-long pre (o.contents ++ rest) o.kind o.option_length end_ s.expected s.known two fits
        right)
]

after-next :
    (fuel : ℕ) (bytes : List ℕ) (i end_ n : ℕ) (e : Option OptionError)
    → 1 ≤ n
    → after fuel bytes i end_ (some n) e
      ≡ visit i (if leb end_ (i + n) then visited [] e else walk fuel bytes (at (i + n) end_) e)
after-next fuel bytes i end_ zero e h = absurd (omega arith)
after-next fuel bytes i end_ (suc n) e h = refl

length-all_wire_bytes :
    (o : TcpOption) (os : List TcpOption) → IsStandard o → 1 ≤ length (all_wire_bytes (o ∷ os))
unfolding all_wire_bytes
length-all_wire_bytes o os s =
    let (e, h) = length-wire_bytes o s in
    omega (arith, length-append {A = ℕ} (wire_bytes o) (all_wire_bytes os))

size-wire :
    (pre bytes : List ℕ) (i end_ : ℕ) (o : TcpOption) (os : List TcpOption)
    → IsStandard o
    → bytes ≡ pre ++ all_wire_bytes (o ∷ os)
    → i ≡ length pre
    → end_ ≡ length bytes
    → end_ ≡ i + o.option_length + length (all_wire_bytes os)
unfolding all_wire_bytes
size-wire pre bytes i end_ o os s eb ei ee = omega (
  arith,
  ap length eb,
  (length-wire_bytes o s).0,
  length-append {A = ℕ} (wire_bytes o) (all_wire_bytes os),
  length-append {A = ℕ} pre (wire_bytes o ++ all_wire_bytes os),
)

walk-first :
    (fuel : ℕ) (pre bytes : List ℕ) (i end_ : ℕ) (o : TcpOption) (os : List TcpOption)
    → IsStandard o
    → bytes ≡ pre ++ all_wire_bytes (o ∷ os)
    → i ≡ length pre
    → end_ ≡ length bytes
    → walk (suc fuel) bytes (at i end_) none
      ≡ visit i (
          if leb end_ (i + o.option_length)
          then visited [] none
          else walk fuel bytes (at (i + o.option_length) end_) none)
unfolding all_wire_bytes
walk-first fuel pre bytes i end_ o os s eb ei ee =
    let size = size-wire pre bytes i end_ o os s eb ei ee in
    let pos = (length-wire_bytes o s).1 in
    let at_o : option_length_at bytes i end_ none ≡ some (some o.option_length, none) =
      rw (eb, ei) (option_length_at-wire pre (all_wire_bytes os) o end_ s (omega arith)) in
    walk_step fuel bytes i end_ (some o.option_length) none none (omega arith) at_o
    ∙ after-next fuel bytes i end_ o.option_length none pos

walk-wire :
    (fuel : ℕ) (pre bytes : List ℕ) (i end_ : ℕ) (o : TcpOption) (os : List TcpOption)
    → All IsStandard (o ∷ os)
    → length os ≤ fuel
    → bytes ≡ pre ++ all_wire_bytes (o ∷ os)
    → i ≡ length pre
    → end_ ≡ length bytes
    → walk (suc fuel) bytes (at i end_) none ≡ visited (starts i (o ∷ os)) none
unfolding all_wire_bytes starts visit
walk-wire fuel pre bytes i end_ o [] (s, ss) enough eb ei ee =
    walk-first fuel pre bytes i end_ o [] s eb ei ee
    ∙ rw
        (le→leb end_ (i + o.option_length)
          (omega (arith, size-wire pre bytes i end_ o [] s eb ei ee)))
        refl
walk-wire zero pre bytes i end_ o (o' ∷ os) ss enough eb ei ee = absurd (omega arith)
walk-wire (suc fuel) pre bytes i end_ o (o' ∷ os) (s, (s', ss)) enough eb ei ee =
    let size = size-wire pre bytes i end_ o (o' ∷ os) s eb ei ee in
    let start : i + o.option_length ≡ length (pre ++ wire_bytes o) =
      omega (arith, (length-wire_bytes o s).0, length-append {A = ℕ} pre (wire_bytes o)) in
    let ih =
      walk-wire fuel (pre ++ wire_bytes o) bytes (i + o.option_length) end_ o' os (s', ss)
        (omega arith) (eb ∙ sym (append_assoc pre (wire_bytes o) (all_wire_bytes (o' ∷ os)))) start
        ee in
    walk-first (suc fuel) pre bytes i end_ o (o' ∷ os) s eb ei ee
    ∙ rw
        (
          gt→leb end_ (i + o.option_length) (omega (arith, size, length-all_wire_bytes o' os s')),
          ih,
        )
        refl

-- Standard options that stand one after the other in the options of a packet are what the loop over
-- its options finds: it visits each at the place where it starts, and reports no error.
pub walk-all_wire_bytes :
    (o : TcpOption) (os : List TcpOption)
    → All IsStandard (o ∷ os)
    → let bytes = all_wire_bytes (o ∷ os) in
      walk (suc (length os)) bytes (tcp_options_begin 0 (length bytes)) none
      ≡ visited (starts 0 (o ∷ os)) none
unfolding tcp_options_begin
walk-all_wire_bytes o os (s, ss) =
    rw (gt→leb (length (all_wire_bytes (o ∷ os))) 0 (length-all_wire_bytes o os s)) (
      walk-wire (length os) [] (all_wire_bytes (o ∷ os)) 0 (length (all_wire_bytes (o ∷ os))) o os
        (s, ss) (omega arith) refl refl refl)
