-- ===== src/Fuzz/Generate/Build.antt =====
-- fuzz_to_packet of fuzz_test_packet.c.
use tcp_fuzz.Prelude.{ℕ, zero, suc, ◌+◌, ◌-◌, ◌*◌, ◌/◌, ◌%◌, ◌^◌, ltb, if◌then◌else◌, add32}
use tcp_fuzz.Prelude.{Bool, true, false, List, [], ◌∷◌, Option, none, some, length, set}
use tcp_fuzz.Prelude.{replicate}
use tcp_fuzz.Packet.{Packet, Direction, packet_new}
use tcp_fuzz.Parser.Outcome.{packet_ok, packet_bad, packet_unknown_l4}
use tcp_fuzz.Parser.Outcome.{ret, fault, out_of_fuel}
use tcp_fuzz.Parser.Entry.{PacketLayer, parse_packet}
use tcp_fuzz.Checksum.Fill.{checksum_packet}
use tcp_fuzz.Fuzz.Input.{Data, push_all}
use tcp_fuzz.Fuzz.Generate.State.{M, ◌>>=◌, ◌>>◌, return, next_byte, next_int, get_packet_seq}
use tcp_fuzz.Fuzz.Generate.State.{set_data_length}
use tcp_fuzz.Fuzz.Generate.Options.{push_options}

abbrev pub max_packet_data_length : ℕ
max_packet_data_length = 10000

abbrev pub ip_header_length : ℕ
ip_header_length = 20

-- The IPv4 header: version and length, no total length yet, time to live 255, protocol TCP.
abbrev pub fixed_data : List ℕ
fixed_data =
    0x45 ∷ 0 ∷ 0 ∷ 0 ∷ 0 ∷ 0 ∷ 0 ∷ 0 ∷ 0xff ∷ 6 ∷ 0 ∷ 0 ∷ 0 ∷ 0 ∷ 0 ∷ 0 ∷ 0 ∷ 0 ∷ 0 ∷ 0 ∷ []

-- The four bytes of the sequence number.
unfoldable pub sequence_bytes : Bool → M (List ℕ)
sequence_bytes true = do
  a ← next_byte
  b ← next_byte
  c ← next_byte
  d ← next_byte
  return (a ∷ b ∷ c ∷ d ∷ [])
sequence_bytes false = do
  seq ← get_packet_seq
  return ((seq / 2 ^ 24 % 256) ∷ (seq / 2 ^ 16 % 256) ∷ (seq / 2 ^ 8 % 256) ∷ (seq % 256) ∷ [])

-- The contents of a packet with `n` bytes, the sequence number's last digit counted up.
unfoldable pub payload_bytes : ℕ → ℕ → ℕ → List ℕ
payload_bytes seq i zero = []
payload_bytes seq i (suc n) = (add32 seq i % 10) ∷ payload_bytes seq (i + 1) n

-- The ports, sequence and acknowledgement numbers, flags, window, checksum and urgent pointer, behind
-- the IP header.
unfoldable pub push_headers : Bool → M Data
unfolding sequence_bytes
push_headers is_fuzz_without_dependency = do
  let d0 = push_all (record { bytes = []; capacity = some 200 }) fixed_data
  let d1 = push_all d0 (0 ∷ 0 ∷ 0 ∷ 0 ∷ [])
  seq ← sequence_bytes is_fuzz_without_dependency
  let d2 = push_all d1 seq
  let d3 = push_all d2 (0 ∷ 0 ∷ 0 ∷ 1 ∷ 0 ∷ 0x10 ∷ [])
  window_hi ← next_byte
  window_lo ← next_byte
  let d4 = push_all d3 (window_hi ∷ window_lo ∷ 0 ∷ 0 ∷ [])
  urgent_hi ← next_byte
  urgent_lo ← next_byte
  return (push_all d4 (urgent_hi ∷ urgent_lo ∷ []))

-- How many bytes bring the options up to a multiple of four.
unfoldable pub padding_length : ℕ → ℕ
padding_length options_length = let n = 4 - options_length % 4 in if ltb n 4 then n else 0

-- `data[32] = off; data[32] <<= 4; data[32] |= off;` for an offset of at most 15.
abbrev pub offset_byte : ℕ → ℕ
offset_byte tcp_off = tcp_off * 16 % 256 + tcp_off

-- The data offset, and the contents, for a TCP header of the given length.
unfoldable pub data_length : Bool → M ℕ
data_length true = do n ← next_int; return (n % max_packet_data_length)
data_length false = return 0

-- The parsed and checksummed packet; `none` is a call of abort() or a failed assert.
unfoldable pub finish_packet : List ℕ → Option Packet
finish_packet bytes = elim (parse_packet (packet_new bytes) (length bytes) PacketLayer.layer_3_ip) [
  | ret packet_ok packet ↦ elim (checksum_packet packet) [
    | some packet' ↦ some (record packet' { direction = Direction.inbound })
    | none ↦ none
  ]
  | ret (packet_bad e) packet ↦ none
  | ret packet_unknown_l4 packet ↦ none
  | fault ↦ none
  | out_of_fuel ↦ none
]

-- Padding, data offset, contents and total length around the headers and options in `buf`.
unfoldable pub complete : Data → ℕ → ℕ → ℕ → List ℕ
unfolding padding_length payload_bytes
complete buf options_length seq data_bytes =
    let padding = padding_length options_length in
    let tcp_header_length = 20 + options_length + padding in
    let padded = push_all buf (replicate padding 0) in
    let offset = set padded.bytes 32 (offset_byte (tcp_header_length / 4)) in
    let filled = push_all (record padded { bytes = offset }) (payload_bytes seq 0 data_bytes) in
    let ip_length = (ip_header_length + tcp_header_length + data_bytes) % 2 ^ 16 in
    set (set filled.bytes 2 (ip_length / 256)) 3 (ip_length % 256)

module _ (comment : ℕ → ℕ → List ℕ) where
  unfoldable pub fuzz_options : Bool → Data → M (Data × ℕ)
  fuzz_options true buf = do
    option_count ← next_byte
    push_options comment (option_count % 11) buf 0
  fuzz_options false buf = return (buf, 0)

  unfoldable pub fuzz_to_packet : Bool → Bool → Bool → M (Option Packet)
  unfolding push_headers fuzz_options data_length complete finish_packet
  fuzz_to_packet is_fuzz_without_dependency is_fuzz_options is_fuzz_data = do
    headers ← push_headers is_fuzz_without_dependency
    (buf, options_length) ← fuzz_options is_fuzz_options headers
    data_bytes ← data_length is_fuzz_data
    set_data_length data_bytes
    seq ← get_packet_seq
    return (finish_packet (complete buf options_length seq data_bytes))
