-- ===== src/TcpOptions/Walk.antt =====
-- The loop over the options of a packet, tcp_options_iterator.c, on any bytes.
use tcp_fuzz.Prelude.{ℕ, zero, suc, ◌+◌, ◌-◌, ◌≤◌, ◌<◌, ◌≡◌, refl, ap, ◌∙◌, arith, tests}
use tcp_fuzz.Prelude.{true, false, Option, none, some, List, [], ◌∷◌, length, get_elem?-some}
use tcp_fuzz.Prelude.{leb, lt→ltb, Bool-cases, inl, inr, ◌==◌, if◌then◌else◌}
use tcp_fuzz.TcpOptions.Iterator.{
  OptionError, Next, TcpOptionsIterator, Walked, walk, visit, visited,
}
use tcp_fuzz.TcpOptions.Iterator.{tcp_options_begin, tcp_options_next, advance, option_length_at}
use tcp_fuzz.TcpOptions.Iterator.{
  get_tcp_option_length, get_expected_tcp_option_length, length_error, get_current_option,
}

-- Strictly increasing, from `low` on and below `high`.
abbrev pub IsWithin : ℕ → ℕ → List ℕ → Type 0
IsWithin low high [] = Unit
IsWithin low high (i ∷ is) = (low ≤ i) × (i < high) × IsWithin (suc i) high is

IsWithin-mono :
    (low low' high : ℕ) (is : List ℕ) → low ≤ low' → IsWithin low' high is → IsWithin low high is
IsWithin-mono low low' high [] h w = tt
IsWithin-mono low low' high (i ∷ is) h (a, b, c) = (omega arith, b, c)

-- The length of an option that starts before the end can be looked up.
length-total :
    (bytes : List ℕ) (i end_ expected : ℕ) (error : Option OptionError)
    → end_ ≤ length bytes
    → (l : Option ℕ) × (e : Option OptionError) × (get_tcp_option_length bytes i end_ expected error
        ≡ some (l, e))
unfolding get_tcp_option_length
length-total bytes i end_ expected error whole = elim (Bool-cases (leb end_ (i + 1))) [
  | inl b ↦ (none, some OptionError.length_byte_too_far, rw (b, get_tcp_option_length) refl)
  | inr b ↦
      let (x, ex) = get_elem?-some bytes (i + 1) (omega (tests, b)) in
      (some x, length_error i end_ expected x error, rw (b, ex, get_tcp_option_length) refl)
]

option_length_at-total :
    (bytes : List ℕ) (i end_ : ℕ) (error : Option OptionError)
    → i < end_
    → end_ ≤ length bytes
    → (l : Option ℕ) × (e : Option OptionError) × (option_length_at bytes i end_ error
        ≡ some (l, e))
unfolding option_length_at
option_length_at-total bytes i end_ error inside whole =
    let (kind, ek) = get_elem?-some bytes i (omega arith) in
    let (expected, error1) = get_expected_tcp_option_length kind error in
    elim (Bool-cases (expected == 1)) [
      | inl b ↦ (some 1, error1, rw (ek, b, option_length_at) refl)
      | inr b ↦
          let (l, e, p) = length-total bytes i end_ expected error1 whole in
          (l, e, rw (ek, b, option_length_at) p)
    ]

abbrev pub at : ℕ → ℕ → TcpOptionsIterator
at i end_ = record { current_option = some i; options_end = end_ }

-- What the walk makes of the option at `i`, when its length is known.
abbrev pub after : ℕ → List ℕ → ℕ → ℕ → Option ℕ → Option OptionError → Walked
after fuel bytes i end_ none error = visited (i ∷ []) error
after fuel bytes i end_ (some zero) error = visited (i ∷ []) error
after fuel bytes i end_ (some (suc n)) error =
    visit i (
      if leb end_ (i + suc n)
      then visited [] error
      else walk fuel bytes (at (i + suc n) end_) error)

advance-stays :
    (i end_ : ℕ) (e : Option OptionError)
    → (advance (at i end_) i none e ≡ record { iter = at i end_; option = none; error = e })
      × (advance (at i end_) i (some zero) e
          ≡ record { iter = at i end_; option = none; error = e })
unfolding advance
advance-stays i end_ e = (refl, refl)

advance-ends :
    (i end_ n : ℕ) (e : Option OptionError)
    → leb end_ (i + suc n) ≡ true
    → advance (at i end_) i (some (suc n)) e ≡ record {
      iter = record { current_option = none; options_end = end_ };
      option = none;
      error = e;
    }
unfolding advance get_current_option
advance-ends i end_ n e b = rw (b) refl

advance-moves :
    (i end_ n : ℕ) (e : Option OptionError)
    → leb end_ (i + suc n) ≡ false
    → advance (at i end_) i (some (suc n)) e
      ≡ record { iter = at (i + suc n) end_; option = some (i + suc n); error = e }
unfolding advance get_current_option
advance-moves i end_ n e b = rw (b) refl

abbrev on_next : ℕ → List ℕ → ℕ → Next → Walked
on_next fuel bytes i next = visit i (elim next.option [
  | none ↦ visited [] next.error
  | some j ↦ walk fuel bytes next.iter next.error
])

walk_next :
    (fuel : ℕ) (bytes : List ℕ) (i end_ : ℕ) (l : Option ℕ) (error e : Option OptionError)
    → i < end_
    → option_length_at bytes i end_ error ≡ some (l, e)
    → walk (suc fuel) bytes (at i end_) error ≡ on_next fuel bytes i (advance (at i end_) i l e)
unfolding walk tcp_options_next
walk_next fuel bytes i end_ l error e h p = rw (lt→ltb i end_ h, p, walk) refl

pub walk_step :
    (fuel : ℕ) (bytes : List ℕ) (i end_ : ℕ) (l : Option ℕ) (error e : Option OptionError)
    → i < end_
    → option_length_at bytes i end_ error ≡ some (l, e)
    → walk (suc fuel) bytes (at i end_) error ≡ after fuel bytes i end_ l e
unfolding visit
walk_step fuel bytes i end_ none error e h p =
    walk_next fuel bytes i end_ none error e h p
    ∙ ap (on_next fuel bytes i) (advance-stays i end_ e).0
walk_step fuel bytes i end_ (some zero) error e h p =
    walk_next fuel bytes i end_ (some zero) error e h p
    ∙ ap (on_next fuel bytes i) (advance-stays i end_ e).1
walk_step fuel bytes i end_ (some (suc n)) error e h p = elim (Bool-cases (leb end_ (i + suc n))) [
  | inl b ↦ rw (b) (
      walk_next fuel bytes i end_ (some (suc n)) error e h p
      ∙ ap (on_next fuel bytes i) (advance-ends i end_ n e b))
  | inr b ↦ rw (b) (
      walk_next fuel bytes i end_ (some (suc n)) error e h p
      ∙ ap (on_next fuel bytes i) (advance-moves i end_ n e b))
]

abbrev WalksWithin : ℕ → ℕ → Walked → Type 0
WalksWithin low high w =
    (is : List ℕ) × (e : Option OptionError) × (w ≡ visited is e) × IsWithin low high is

after-WalksWithin :
    (fuel : ℕ) (bytes : List ℕ) (i end_ : ℕ) (l : Option ℕ) (e : Option OptionError)
    → ((j : ℕ) → i < j → j < end_ → WalksWithin j end_ (walk fuel bytes (at j end_) e))
    → i < end_
    → WalksWithin i end_ (after fuel bytes i end_ l e)
unfolding visit
after-WalksWithin fuel bytes i end_ none e ih h = (i ∷ [], e, refl, (omega arith, h, tt))
after-WalksWithin fuel bytes i end_ (some zero) e ih h = (i ∷ [], e, refl, (omega arith, h, tt))
after-WalksWithin fuel bytes i end_ (some (suc n)) e ih h =
    elim (Bool-cases (leb end_ (i + suc n))) [
      | inl b ↦ (i ∷ [], e, rw (b) refl, (omega arith, h, tt))
      | inr b ↦
          let (is, e', p, w) = ih (i + suc n) (omega arith) (omega (tests, b)) in
          (
            i ∷ is,
            e',
            rw (b, p) refl,
            (omega arith, h, IsWithin-mono (suc i) (i + suc n) end_ is (omega arith) w),
          )
    ]

walk-WalksWithin :
    (fuel : ℕ) (bytes : List ℕ) (i end_ : ℕ) (error : Option OptionError)
    → i < end_
    → end_ ≤ length bytes
    → end_ ≤ i + fuel
    → WalksWithin i end_ (walk fuel bytes (at i end_) error)
walk-WalksWithin zero bytes i end_ error h whole enough = absurd (omega arith)
walk-WalksWithin (suc fuel) bytes i end_ error h whole enough =
    let (l, e, p) = option_length_at-total bytes i end_ error h whole in
    rw (walk_step fuel bytes i end_ l error e h p) (
      after-WalksWithin fuel bytes i end_ l e
        (λ j a b. walk-WalksWithin fuel bytes j end_ e b whole (omega arith)) h)

-- The loop over the TCP options of a packet ends, whatever their bytes are: as many rounds as there
-- are bytes are enough, no byte is read outside a packet that holds the options, and the options it
-- sees are at increasing places between the first byte of the options and their end.
pub walk_lem :
    (bytes : List ℕ) (options payload : ℕ)
    → payload ≤ length bytes
    → (is : List ℕ) × (e : Option OptionError) × (walk
          (suc (payload - options))
          bytes
          (tcp_options_begin options payload)
          none
        ≡ visited is e)
      × IsWithin options payload is
unfolding tcp_options_begin walk
walk_lem bytes options payload whole = elim (Bool-cases (leb payload options)) [
  | inl b ↦ ([], none, rw (b, walk) refl, tt)
  | inr b ↦ rw (b) (
      walk-WalksWithin (suc (payload - options)) bytes options payload none (omega (tests, b)) whole
        (omega arith))
]
