-- ===== src/TcpOptions.antt =====
-- tcp_options.c: a buffer of TCP options in wire format. The iterator over them is in `Iterator`.
pub mod Iterator
pub mod Walk
pub mod RoundTrip
pub mod Append
use tcp_fuzz.Prelude.{ℕ, zero, suc, ◌+◌, ◌-◌, ◌/◌, ◌%◌, ltb, leb, ◌==◌, if◌then◌else◌}
use tcp_fuzz.Prelude.{Option, none, some, List, [], ◌∷◌, ◌++◌, length, take, drop, replicate}

-- `sizeof(options->data)`: a TCP header of 60 bytes less the 20 of `struct tcp`.
abbrev pub max_tcp_option_bytes : ℕ
max_tcp_option_bytes = 40

pub record TcpOptions : Type 0 where
  pub data_bytes : List ℕ
  pub length_bytes : ℕ

-- `contents` are the bytes behind the kind and the length in the struct.
pub record TcpOption : Type 0 where
  pub kind : ℕ
  pub option_length : ℕ
  pub contents : List ℕ

abbrev pub tcp_options_new : TcpOptions
tcp_options_new = record { data_bytes = replicate 40 0; length_bytes = 0 }

-- `calloc` zeroes the contents, which are 38 bytes in the struct.
abbrev pub tcp_option_new : ℕ → ℕ → TcpOption
tcp_option_new kind length = record {
  kind = kind;
  option_length = length;
  contents = replicate 38 0;
}

-- The bytes of the struct that go on the wire.
unfoldable pub wire_bytes : TcpOption → List ℕ
wire_bytes option = take option.option_length (option.kind ∷ option.option_length ∷ option.contents)

-- `none` is STATUS_ERR. The copy overwrites the data from `length_bytes` on.
unfoldable pub tcp_options_append : TcpOptions → TcpOption → Option TcpOptions
unfolding wire_bytes
tcp_options_append options option =
    if ltb max_tcp_option_bytes (options.length_bytes + option.option_length)
    then none
    else some (record {
      data_bytes =
          take options.length_bytes options.data_bytes
          ++ (wire_bytes option
              ++ drop (options.length_bytes + option.option_length) options.data_bytes);
      length_bytes = options.length_bytes + option.option_length;
    })

-- `none` is STATUS_ERR, with the message "TCP SACK option too short"; that the length is no multiple
-- of a block is reported in the message alone, and is the second component.
unfoldable pub num_sack_blocks : ℕ → Option (ℕ × ℕ)
num_sack_blocks opt_len =
    if leb opt_len 2 then none else some ((opt_len - 2) / 8, (opt_len - 2) % 8)
