-- ===== src/Wire.antt =====
-- wire_conn.c and wire_protocol.h: the messages between the two ends of an on-the-wire test. What read()
-- and write() of the system return, call by call, is a list.
pub mod Pieces
pub mod RoundTrip
use tcp_fuzz.Prelude.{
  ℕ, zero, suc, ◌+◌, ◌-◌, ◌*◌, ◌/◌, ◌%◌, ◌^◌, ◌==◌, ◌||◌, ltb, Bool, Option, none, some, List, [],
  ◌∷◌,
}
use tcp_fuzz.Prelude.{◌++◌, if◌then◌else◌, length, take, drop, be32}

-- What one call of read() returns: bytes, EINTR or EAGAIN, or another error. No byte is the end of the
-- stream.
pub data Reading : Type 0 where
  received : List ℕ → Reading
  interrupted broken : Reading

pub data Writing : Type 0 where
  accepted : ℕ → Writing
  interrupted broken : Writing

-- STATUS_ERR, or the bytes read and what the calls after it return. The end of the list is the end of the
-- stream.
pub data Read : Type 0 where
  err : Read
  got : List ℕ → List Reading → Read

abbrev pub prepend : List ℕ → Read → Read
prepend bytes err = err
prepend bytes (got rest readings) = got (bytes ++ rest) readings

-- `none` is the failed assert on more bytes than were asked for.
abbrev pub prepend_read : List ℕ → Option Read → Option Read
prepend_read bytes none = none
prepend_read bytes (some read) = some (prepend bytes read)

unfoldable pub read_bytes : ℕ → List Reading → Option Read
read_bytes zero readings = some (got [] readings)
read_bytes (suc n) [] = some err
read_bytes (suc n) (Reading.interrupted ∷ readings) = read_bytes (suc n) readings
read_bytes (suc n) (Reading.broken ∷ readings) = some err
read_bytes (suc n) (received bytes ∷ readings) =
    let rest = read_bytes (suc n - length bytes) readings in
    if length bytes == 0
    then some err
    else if ltb (suc n) (length bytes)
    then none
    else prepend_read bytes rest

-- STATUS_ERR, or the bytes that were written, or not yet all of them with the calls that the list has.
pub data Written : Type 0 where
  err : Written
  sent : List ℕ → List Writing → Written
  blocked : Written

abbrev pub prepend_written : List ℕ → Option Written → Option Written
prepend_written bytes none = none
prepend_written bytes (some err) = some err
prepend_written bytes (some blocked) = some blocked
prepend_written bytes (some (sent rest writings)) = some (sent (bytes ++ rest) writings)

unfoldable pub write_bytes : List ℕ → List Writing → Option Written
write_bytes [] writings = some (sent [] writings)
write_bytes (b ∷ bytes) [] = some blocked
write_bytes (b ∷ bytes) (Writing.interrupted ∷ writings) = write_bytes (b ∷ bytes) writings
write_bytes (b ∷ bytes) (Writing.broken ∷ writings) = some err
write_bytes (b ∷ bytes) (accepted n ∷ writings) =
    let rest = write_bytes (drop n (b ∷ bytes)) writings in
    if ltb (suc (length bytes)) n then none else prepend_written (take n (b ∷ bytes)) rest

-- `htonl` of a number of 32 bits.
abbrev pub word : ℕ → List ℕ
word n = n / 2 ^ 24 % 256 ∷ n / 2 ^ 16 % 256 ∷ n / 2 ^ 8 % 256 ∷ n % 256 ∷ []

-- `struct wire_header`
abbrev pub wire_header : ℕ → ℕ → List ℕ
wire_header op buf_len = word (8 + buf_len) ++ word op

unfoldable pub wire_conn_write : ℕ → List ℕ → List Writing → Option Written
unfolding write_bytes
wire_conn_write op buf writings = elim (write_bytes (wire_header op (length buf)) writings) [
  | some (sent header rest) ↦ prepend_written header (write_bytes buf rest)
  | other ↦ other
]

-- `MAX_MESSAGE_BYTES`
abbrev pub max_message_bytes : ℕ
max_message_bytes = 10 * 1000 * 1000

-- STATUS_ERR, or the operation, the message and the space of the buffer that it is in.
pub data Message : Type 0 where
  invalid : Message
  message : ℕ → List ℕ → ℕ → List Reading → Message

-- The buffer grows to twice what is needed.
abbrev pub grown : ℕ → ℕ → ℕ
grown buf_space buf_len = if ltb buf_space buf_len then 2 * buf_len else buf_space

abbrev pub in_buffer : ℕ → ℕ → Option Read → Option Message
in_buffer op buf_space none = none
in_buffer op buf_space (some err) = some invalid
in_buffer op buf_space (some (got bytes readings)) = some (message op bytes buf_space readings)

-- A length below 8 is negative without the header.
abbrev pub read_body : ℕ → ℕ → ℕ → List Reading → Option Message
read_body buf_space length op readings =
    let buf_len = length - 8 in
    if ltb length 8 || ltb max_message_bytes buf_len
    then some invalid
    else in_buffer op (grown buf_space buf_len) (read_bytes buf_len readings)

abbrev pub read_header : ℕ → Option Read → Option Message
read_header buf_space (some (got (a ∷ b ∷ c ∷ d ∷ e ∷ f ∷ g ∷ h ∷ []) readings)) =
    read_body buf_space (be32 a b c d) (be32 e f g h) readings
read_header buf_space none = none
read_header buf_space (some _) = some invalid

unfoldable pub wire_conn_read : ℕ → List Reading → Option Message
unfolding read_bytes
wire_conn_read buf_space readings = read_header buf_space (read_bytes 8 readings)
