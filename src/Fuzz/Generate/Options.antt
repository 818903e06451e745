-- ===== src/Fuzz/Generate/Options.antt =====
-- The loop over TCP options in fuzz_to_packet.
use tcp_fuzz.Prelude.{ℕ, zero, suc, ◌+◌, ◌-◌, ◌*◌, ◌%◌, ltb, ◌==◌, if◌then◌else◌}
use tcp_fuzz.Prelude.{Bool, true, false, List}
use tcp_fuzz.Fuzz.Input.{Data, push_data}
use tcp_fuzz.Fuzz.Generate.State.{M, ◌>>=◌, ◌>>◌, return, next_byte, add_text}

abbrev pub max_options_length : ℕ
max_options_length = 40

-- `tmp % 17` for `char tmp`, which is signed: a byte from 128 on is negative, and a negative
-- remainder is none of the cases. 17 stands for it.
unfoldable pub option_case : ℕ → ℕ
option_case tmp = if ltb tmp 128 then tmp % 17 else (if (256 - tmp) % 17 == 0 then 0 else 17)

-- `kind = tmp; length = read_byte();`, with 2 for a length of 0.
unfoldable pub other_option : ℕ → M (ℕ × ℕ)
other_option tmp = do length ← next_byte; return (tmp, if length == 0 then 2 else length)

-- The kind and length of an option, by the cases of the switch.
unfoldable pub choose_option : ℕ → M (ℕ × ℕ)
unfolding option_case other_option
choose_option tmp =
    let c = option_case tmp in
    if c == 0
    then return (0, 1)
    else if c == 1
    then return (1, 1)
    else if c == 2
    then return (2, 4)
    else if c == 3
    then return (3, 3)
    else if c == 4
    then return (4, 2)
    else if c == 5
    then (do blocks ← next_byte; return (5, (blocks % 4 + 1) * 8))
    else if c == 6
    then return (8, 10)
    else if c == 7
    then (do length ← next_byte; return (34, length % max_options_length))
    else if c == 8
    then (do length ← next_byte; return (254, length % max_options_length))
    else other_option tmp

-- `for (j = 0; j < n; j++) push_data(read_byte())`
unfoldable pub push_bytes : ℕ → Data → M Data
unfolding next_byte
push_bytes zero buf = return buf
push_bytes (suc n) buf = do b ← next_byte; push_bytes n (push_data buf b)

-- The bytes of one option: the length byte only for a length of at least two, and then the contents.
unfoldable pub push_option : Data → ℕ → ℕ → M Data
unfolding push_bytes
push_option buf kind length =
    let buf1 = push_data buf kind in
    let buf2 = if ltb 1 length then push_data buf1 length else buf1 in push_bytes (length - 2) buf2

-- `comment` is what sprintf writes for the kind and the length of an option.
module _ (comment : ℕ → ℕ → List ℕ) where
  -- What is done with an option: if it does not fit, the loop ends; else it is written, with a comment
  -- in the script, and `rest` goes on. The sum of the lengths stays at most 40, so it fits a `u8`.
  unfoldable pub push_if_fits : Bool → (Data → ℕ → M (Data × ℕ)) → Data → ℕ → ℕ × ℕ → M (Data × ℕ)
  push_if_fits true rest buf options_length option = return (buf, options_length)
  push_if_fits false rest buf options_length (kind, length) = do
    buf' ← push_option buf kind length
    add_text (comment kind length)
    rest buf' (options_length + length)

  -- The loop, for the rounds left.
  unfoldable pub push_options : ℕ → Data → ℕ → M (Data × ℕ)
  unfolding push_if_fits
  push_options zero buf options_length = return (buf, options_length)
  push_options (suc rounds) buf options_length = do
    tmp ← next_byte
    option ← choose_option tmp
    push_if_fits (ltb max_options_length (options_length + option.1)) (push_options rounds) buf
        options_length option
