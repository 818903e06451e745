-- ===== src/Wire/RoundTrip.antt =====
-- A message that one end writes, read by the other.
use tcp_fuzz.Prelude.{ℕ, ◌+◌, ◌-◌, ◌%◌, ◌/◌, ◌^◌, ◌≤◌, ltb, false, some, List, ◌++◌, ◌≡◌}
use tcp_fuzz.Prelude.{refl, ap, ◌∙◌, arith, length, IsU32, be32, le→ltb}
use tcp_fuzz.Wire.{
  Reading, Writing, in_buffer, read_bytes, sent, wire_header, wire_conn_write, max_message_bytes,
  grown, message, read_body, read_header, wire_conn_read,
}
use tcp_fuzz.Wire.Pieces.{Delivers, read_bytes-Delivers, Takes, write_bytes-Takes}

word_lem :
    (n : ℕ) → IsU32 n → be32 (n / 2 ^ 24 % 256) (n / 2 ^ 16 % 256) (n / 2 ^ 8 % 256) (n % 256) ≡ n
word_lem n h = omega arith

-- When the calls of write() take the header and then the message, all of it is sent.
wire_conn_write_lem :
    (op : ℕ) (buf : List ℕ) (first second later_ones : List Writing)
    → Takes (wire_header op (length buf)) first
    → Takes buf second
    → wire_conn_write op buf (first ++ (second ++ later_ones))
      ≡ some (sent (wire_header op (length buf) ++ buf) later_ones)
unfolding wire_conn_write
wire_conn_write_lem op buf first second later_ones h k =
    let header = write_bytes-Takes (wire_header op (length buf)) first (second ++ later_ones) h in
    let body = write_bytes-Takes buf second later_ones k in rw (header, wire_conn_write, body) refl

valid_length :
    (buf_space op n : ℕ) (readings : List Reading)
    → n ≤ max_message_bytes
    → read_body buf_space (8 + n) op readings
      ≡ in_buffer op (grown buf_space n) (read_bytes n readings)
valid_length buf_space op n readings h =
    let short : ltb (8 + n) 8 ≡ false = le→ltb _ _ (omega arith) in
    let rest : 8 + n - 8 ≡ n = omega arith in
    let fits : ltb max_message_bytes n ≡ false = le→ltb _ _ h in rw (short, rest, fits) refl

wire_conn_read_lem :
    (op buf_space : ℕ) (buf : List ℕ) (first second later_ones : List Reading)
    → IsU32 op
    → length buf ≤ max_message_bytes
    → Delivers (wire_header op (length buf)) first
    → Delivers buf second
    → wire_conn_read buf_space (first ++ (second ++ later_ones))
      ≡ some (message op buf (grown buf_space (length buf)) later_ones)
unfolding wire_conn_read
wire_conn_read_lem op buf_space buf first second later_ones o l h k =
    let header = read_bytes-Delivers (wire_header op (length buf)) first (second ++ later_ones) h in
    let body = read_bytes-Delivers buf second later_ones k in
    ap (read_header buf_space) header
    ∙ (rw
        (
          word_lem op o,
          word_lem (8 + length buf) (omega (arith, l)),
          valid_length buf_space op (length buf) (second ++ later_ones) l,
          body,
        )
        refl)

-- One end writes a message of at most MAX_MESSAGE_BYTES, and the system takes the header and then the
-- message in pieces, with any interruptions. If the calls of read() of the other end bring the bytes that
-- were sent, in any other pieces and with any interruptions, of which none runs over the end of the
-- header, then that end reads the operation and the message, in a buffer that has the space for it, and
-- what comes later is left to be read.
pub wire_round_trip :
    (op buf_space : ℕ) (buf : List ℕ) (w₁ w₂ writings : List Writing)
    (r₁ r₂ readings : List Reading)
    → IsU32 op
    → length buf ≤ max_message_bytes
    → Takes (wire_header op (length buf)) w₁
    → Takes buf w₂
    → Delivers (wire_header op (length buf)) r₁
    → Delivers buf r₂
    → (wire_conn_write op buf (w₁ ++ (w₂ ++ writings))
        ≡ some (sent (wire_header op (length buf) ++ buf) writings))
      × ((space : ℕ) × (wire_conn_read buf_space (r₁ ++ (r₂ ++ readings))
            ≡ some (message op buf space readings))
          × (length buf ≤ space))
wire_round_trip op buf_space buf w₁ w₂ writings r₁ r₂ readings o l t₁ t₂ d₁ d₂ = (
  wire_conn_write_lem op buf w₁ w₂ writings t₁ t₂,
  (
    grown buf_space (length buf),
    wire_conn_read_lem op buf_space buf r₁ r₂ readings o l d₁ d₂,
    ground arith,
  ),
)
