-- ===== src/TcpOptions/Append.antt =====
-- tcp_options_append of tcp_options.c.
use tcp_fuzz.Prelude.{ℕ, zero, suc, ◌+◌, ◌≤◌, ◌≡◌, refl, sym, ap, ◌∙◌, arith}
use tcp_fuzz.Prelude.{some, List, [], ◌∷◌, ◌++◌, length, length-append, take, drop, le→ltb}
use tcp_fuzz.TcpOptions.{
  TcpOption, TcpOptions, wire_bytes, tcp_options_append, max_tcp_option_bytes,
}
use tcp_fuzz.TcpOptions.RoundTrip.{IsStandard, length-wire_bytes}
use mathlib.Core.List.{append_assoc}

take-append : (xs ys : List ℕ) (n : ℕ) → n ≡ length xs → take n (xs ++ ys) ≡ xs
take-append [] ys zero e = refl
take-append [] ys (suc n) e = absurd (omega arith)
take-append (x ∷ xs) ys zero e = absurd (omega arith)
take-append (x ∷ xs) ys (suc n) e = ap (λ (zs : List ℕ). x ∷ zs) (take-append xs ys n (omega arith))

length-take : (n : ℕ) (xs : List ℕ) → n ≤ length xs → length (take n xs) ≡ n
length-take zero xs h = refl
length-take (suc n) [] h = absurd (omega arith)
length-take (suc n) (x ∷ xs) h = ap suc (length-take n xs (omega arith))

length-drop : (n : ℕ) (xs : List ℕ) → n ≤ length xs → length (drop n xs) + n ≡ length xs
length-drop zero xs h = omega arith
length-drop (suc n) [] h = absurd (omega arith)
length-drop (suc n) (x ∷ xs) h = omega (arith, length-drop n xs (omega arith))

-- A buffer of 40 bytes of which the first ones count, and are the given ones.
abbrev pub Holds : TcpOptions → List ℕ → Type 0
Holds options bytes =
    (take options.length_bytes options.data_bytes ≡ bytes)
    × (options.length_bytes ≡ length bytes)
    × (length options.data_bytes ≡ max_tcp_option_bytes)

-- Where a standard option still fits into the 40 bytes, tcp_options_append succeeds, keeps the bytes
-- that are there, puts those of the option behind them, and never outgrows the buffer.
pub tcp_options_append-Holds :
    (options : TcpOptions) (bytes : List ℕ) (option : TcpOption)
    → Holds options bytes
    → IsStandard option
    → length bytes + option.option_length ≤ max_tcp_option_bytes
    → (options' : TcpOptions) × (tcp_options_append options option ≡ some options')
      × Holds options' (bytes ++ wire_bytes option)
unfolding tcp_options_append
tcp_options_append-Holds options bytes option (eb, el, ed) s fits =
    let n = options.length_bytes in
    let k = option.option_length in
    let (lw, pos) = length-wire_bytes option s in
    let kept = take n options.data_bytes in
    let free = drop (n + k) options.data_bytes in
    let len_kept = length-take n options.data_bytes (omega arith) in
    let len_free = length-drop (n + k) options.data_bytes (omega arith) in
    let both : n + k ≡ length (kept ++ wire_bytes option) =
      omega (arith, length-append {A = ℕ} kept (wire_bytes option)) in
    (
      record { data_bytes = kept ++ (wire_bytes option ++ free); length_bytes = n + k },
      rw (le→ltb 40 (n + k) (omega arith)) refl,
      (
        ap (take (n + k)) (sym (append_assoc kept (wire_bytes option) free))
            ∙ take-append (kept ++ wire_bytes option) free (n + k) both
            ∙ ap (λ (xs : List ℕ). xs ++ wire_bytes option) eb,
        omega (arith, length-append {A = ℕ} bytes (wire_bytes option)),
        omega (
          arith,
          length-append {A = ℕ} kept (wire_bytes option ++ free),
          length-append {A = ℕ} (wire_bytes option) free,
        ),
      ),
    )
