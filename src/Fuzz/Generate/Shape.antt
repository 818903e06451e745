-- ===== src/Fuzz/Generate/Shape.antt =====
-- The bytes that fuzz_to_packet builds: forty bytes of IPv4 and TCP header, options, padding, data.
use tcp_fuzz.Prelude.{ℕ, zero, suc, ◌+◌, ◌-◌, ◌/◌, ◌%◌, ◌^◌, ◌≤◌, ◌≡◌, refl, sym, ap, ◌∙◌}
use tcp_fuzz.Prelude.{Bool, true, false, List, [], ◌∷◌, ◌++◌, length, length-append}
use tcp_fuzz.Prelude.{ltb, ltb→le, Bool-cases, inl, inr, replicate, arith, tests}
use mathlib.Core.List.{append_assoc, append-nil}
use tcp_fuzz.Fuzz.Input.{Data, push_data, push_all, push_all-bytes}
use tcp_fuzz.Fuzz.Generate.State.{Fuzzer, next_byte, add_text}
use tcp_fuzz.Fuzz.Generate.Options.{push_bytes, push_option, push_if_fits, push_options}
use tcp_fuzz.Fuzz.Generate.Options.{choose_option}
use tcp_fuzz.Fuzz.Generate.Build.{push_headers, complete, padding_length}
use tcp_fuzz.Fuzz.Generate.Build.{payload_bytes, offset_byte, fuzz_options}

-- The bytes of the headers that depend on the input or on the sequence number.
pub record Choices : Type 0 where
  pub seq1 : ℕ
  pub seq2 : ℕ
  pub seq3 : ℕ
  pub seq4 : ℕ
  pub window1 : ℕ
  pub window2 : ℕ
  pub urgent1 : ℕ
  pub urgent2 : ℕ

-- `hi` and `lo` are the total length, `off` the byte with the data offset.
abbrev pub packet_bytes : Choices → ℕ → ℕ → ℕ → List ℕ → List ℕ
packet_bytes c hi lo off tail =
    0x45 ∷ 0 ∷ hi ∷ lo ∷ 0 ∷ 0 ∷ 0 ∷ 0 ∷ 0xff ∷ 6 ∷ 0 ∷ 0 ∷ 0 ∷ 0 ∷ 0 ∷ 0 ∷ 0 ∷ 0 ∷ 0 ∷ 0 ∷ 0 ∷ 0
    ∷ 0 ∷ 0 ∷ c.seq1 ∷ c.seq2 ∷ c.seq3 ∷ c.seq4 ∷ 0 ∷ 0 ∷ 0 ∷ 1 ∷ off ∷ 0x10 ∷ c.window1 ∷ c.window2
    ∷ 0 ∷ 0 ∷ c.urgent1 ∷ c.urgent2 ∷ tail

pub push_headers-bytes :
    (b : Bool) (s : Fuzzer) → (c : Choices) × ((push_headers b s).0.bytes ≡ packet_bytes c 0 0 0 [])
unfolding push_headers push_all push_data
push_headers-bytes true s = (
  record {
    seq1 = _;
    seq2 = _;
    seq3 = _;
    seq4 = _;
    window1 = _;
    window2 = _;
    urgent1 = _;
    urgent2 = _;
  },
  refl,
)
push_headers-bytes false s = (
  record {
    seq1 = _;
    seq2 = _;
    seq3 = _;
    seq4 = _;
    window1 = _;
    window2 = _;
    urgent1 = _;
    urgent2 = _;
  },
  refl,
)

-- `n` bytes of input are appended.
push_bytes-length :
    (n : ℕ) (buf : Data) (s : Fuzzer)
    → (bs : List ℕ) × ((push_bytes n buf s).0.bytes ≡ buf.bytes ++ bs) × (length bs ≡ n)
unfolding push_bytes push_data
push_bytes-length zero buf s = ([], sym (append-nil buf.bytes), refl)
push_bytes-length (suc n) buf s =
    let (b, s') = next_byte s in
    let (bs, e, l) = push_bytes-length n (push_data buf b) s' in
    (b ∷ bs, e ∙ append_assoc buf.bytes (b ∷ []) bs, ap suc l)

-- An option takes as many bytes as its length says, and one if that is 0.
push_option-length :
    (buf : Data) (kind n : ℕ) (s : Fuzzer)
    → (bs : List ℕ) × ((push_option buf kind n s).0.bytes ≡ buf.bytes ++ bs)
      × (n ≤ length bs)
      × (length bs ≤ n + 1)
unfolding push_option push_data
push_option-length buf kind n s = elim (Bool-cases (ltb 1 n)) [
  | inl e ↦
      let (bs, p, l) = push_bytes-length (n - 2) (push_data (push_data buf kind) n) s in
      (
        kind ∷ n ∷ bs,
        rw (e, push_option)
            (p
              ∙ append_assoc (buf.bytes ++ (kind ∷ [])) (n ∷ []) bs
              ∙ append_assoc buf.bytes (kind ∷ []) (n ∷ bs)),
        omega arith,
        omega (tests, l, e),
      )
  | inr e ↦
      let (bs, p, l) = push_bytes-length (n - 2) (push_data buf kind) s in
      (
        kind ∷ bs,
        rw (e, push_option) (p ∙ append_assoc buf.bytes (kind ∷ []) bs),
        omega tests,
        omega tests,
      )
]

-- What the loop has appended: at least as many bytes as it counts, and it counts at most 40.
pub record Appended (buf : Data) (counted rounds : ℕ) (out : Data × ℕ) : Type 0 where
  pub opts : List ℕ
  pub bytes : out.0.bytes ≡ buf.bytes ++ opts
  pub at_least : out.1 ≤ counted + length opts
  pub at_room : counted + length opts ≤ out.1 + rounds
  pub at_most : out.1 ≤ 40

module _ (comment : ℕ → ℕ → List ℕ) where
  push_if_fits-Appended :
      (b : Bool) (rest : Data → ℕ → Fuzzer → (Data × ℕ) × Fuzzer) (buf : Data) (counted rounds : ℕ)
      (option : ℕ × ℕ) (s : Fuzzer)
      → ltb 40 (counted + option.1) ≡ b
      → counted ≤ 40
      → ((buf' : Data) (counted' : ℕ) (s' : Fuzzer)
          → counted' ≤ 40
          → Appended buf' counted' rounds (rest buf' counted' s').0)
      → Appended buf counted (suc rounds) (push_if_fits comment b rest buf counted option s).0
  unfolding push_if_fits
  push_if_fits-Appended true rest buf counted rounds option s e h ih = record {
    opts = [];
    bytes = sym (append-nil buf.bytes);
    at_least = omega arith;
    at_room = omega arith;
    at_most = h;
  }
  push_if_fits-Appended false rest buf counted rounds (kind, n) s e h ih =
      let (bs, p, l, k) = push_option-length buf kind n s in
      let (buf', s') = push_option buf kind n s in
      let more =
        ih buf' (counted + n) (add_text (comment kind n) s').1 (ltb→le 40 (counted + n) e) in
      record {
        opts = bs ++ more.opts;
        bytes =
            more.bytes
            ∙ ap (λ (xs : List ℕ). xs ++ more.opts) p
            ∙ append_assoc buf.bytes bs more.opts;
        at_least = omega (arith, more.at_least, length-append {0} bs more.opts);
        at_room = omega (arith, more.at_room, length-append {0} bs more.opts);
        at_most = more.at_most;
      }

  push_options-Appended :
      (rounds : ℕ) (buf : Data) (counted : ℕ) (s : Fuzzer)
      → counted ≤ 40
      → Appended buf counted rounds (push_options comment rounds buf counted s).0
  unfolding push_options
  push_options-Appended zero buf counted s h = record {
    opts = [];
    bytes = sym (append-nil buf.bytes);
    at_least = omega arith;
    at_room = omega arith;
    at_most = h;
  }
  push_options-Appended (suc rounds) buf counted s h =
      let (tmp, s1) = next_byte s in
      let (option, s2) = choose_option tmp s1 in
      push_if_fits-Appended _ (push_options comment rounds) buf counted rounds option s2 refl h
        (push_options-Appended rounds)

  pub fuzz_options-Appended :
      (b : Bool) (buf : Data) (s : Fuzzer) → Appended buf 0 10 (fuzz_options comment b buf s).0
  unfolding fuzz_options
  fuzz_options-Appended true buf s =
      let (count, s1) = next_byte s in
      let loop = push_options-Appended (count % 11) buf 0 s1 (omega arith) in
      record {
        opts = loop.opts;
        bytes = loop.bytes;
        at_least = loop.at_least;
        at_room = omega (arith, loop.at_room);
        at_most = loop.at_most;
      }
  fuzz_options-Appended false buf s = record {
    opts = [];
    bytes = sym (append-nil buf.bytes);
    at_least = omega arith;
    at_room = omega arith;
    at_most = omega arith;
  }

pub length-payload_bytes : (seq i n : ℕ) → length (payload_bytes seq i n) ≡ n
unfolding payload_bytes
length-payload_bytes seq i zero = refl
length-payload_bytes seq i (suc n) = ap suc (length-payload_bytes seq (i + 1) n)

-- The TCP header, with options and padding.
abbrev pub header_length : ℕ → ℕ
header_length options_length = 20 + options_length + padding_length options_length

-- The padding makes it a multiple of four, and four bits hold a fourth of it.
pub header_length_bounds :
    (n : ℕ) → n ≤ 40 → (header_length n % 4 ≡ 0) × (20 ≤ header_length n) × (header_length n ≤ 60)
unfolding padding_length
header_length_bounds n h = ground arith

abbrev pub total_length : ℕ → ℕ → ℕ
total_length options_length data_bytes = (20 + header_length options_length + data_bytes) % 2 ^ 16

pub complete-bytes :
    (buf : Data) (c : Choices) (opts : List ℕ) (n seq data_bytes : ℕ)
    → buf.bytes ≡ packet_bytes c 0 0 0 opts
    → complete buf n seq data_bytes
      ≡ packet_bytes c
          (total_length n data_bytes / 256)
          (total_length n data_bytes % 256)
          (offset_byte (header_length n / 4))
          ((opts ++ replicate (padding_length n) 0) ++ payload_bytes seq 0 data_bytes)
unfolding complete
complete-bytes buf c opts n seq data_bytes e = simp (push_all-bytes, e)
