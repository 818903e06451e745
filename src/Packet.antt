-- ===== src/Packet.antt =====
-- packet.h, header.h and packet.c: a packet in its wire format, with the metadata about the headers
-- that were found or built in it.
-- A pointer into `buffer` is the offset from its start, and `NULL` is `none`. The entries of
-- `headers` before the first `HEADER_NONE` are a list: `calloc` sets every type to `HEADER_NONE`,
-- which is 0, and `packet_append_header` fills the first such entry.
pub mod Layout
pub mod Copy
use tcp_fuzz.Prelude.{ℕ, ◌+◌, ◌*◌, ◌/◌, ◌%◌, ◌==◌, ltb, if◌then◌else◌, add32, length, get_elem?}
use tcp_fuzz.Prelude.{Bool, true, false, Option, none, some, List, [], ◌∷◌, ◌++◌, arith}

-- `enum direction_t`
pub data Direction : Type 0 where
  invalid inbound outbound : Direction

-- `enum header_t`, without the two that mark the end of an array
pub data HeaderType : Type 0 where
  ipv4 ipv6 gre mpls tcp udp icmpv4 icmpv6 : HeaderType

pub record Header : Type 0 where
  pub type : HeaderType
  pub header_bytes : ℕ
  pub total_bytes : ℕ
  pub ptr : ℕ

pub record Packet : Type 0 where
  pub buffer : List ℕ
  pub buffer_bytes : ℕ
  pub l2_header_bytes : ℕ
  pub ip_bytes : ℕ
  pub direction : Direction
  pub headers : List Header
  pub ipv4 : Option ℕ
  pub ipv6 : Option ℕ
  pub tcp : Option ℕ
  pub udp : Option ℕ
  pub icmpv4 : Option ℕ
  pub icmpv6 : Option ℕ

-- The maximum number of headers.
abbrev pub packet_max_headers : ℕ
packet_max_headers = 6

-- `packet_new`, with the bytes that the caller then copies into the buffer.
abbrev pub packet_new : List ℕ → Packet
packet_new bytes = record {
  buffer = bytes;
  buffer_bytes = length bytes;
  l2_header_bytes = 0;
  ip_bytes = 0;
  direction = Direction.invalid;
  headers = [];
  ipv4 = none;
  ipv6 = none;
  tcp = none;
  udp = none;
  icmpv4 = none;
  icmpv6 = none;
}

unfoldable pub packet_header_count : Packet → ℕ
packet_header_count packet = length packet.headers

-- The new header is the last one of the result. `u32` sums wrap.
unfoldable pub packet_append_header : Packet → HeaderType → ℕ → Option Packet
unfolding packet_header_count
packet_append_header packet header_type header_bytes =
    if packet_header_count packet == packet_max_headers
    then none
    else if ltb packet.buffer_bytes (add32 packet.ip_bytes header_bytes)
    then none
    else some (record packet {
      ip_bytes = add32 packet.ip_bytes header_bytes;
      headers =
          packet.headers
          ++ (record {
            type = header_type;
            header_bytes = header_bytes;
            total_bytes = 0;
            ptr = add32 packet.l2_header_bytes packet.ip_bytes;
          }
              ∷ []);
    })

-- `header->total_bytes = n` for the header that was appended last.
abbrev pub set_last_total : List Header → ℕ → List Header
set_last_total [] n = []
set_last_total (h ∷ []) n = record h { total_bytes = n } ∷ []
set_last_total (h ∷ g ∷ hs) n = h ∷ set_last_total (g ∷ hs) n

abbrev pub set_total_bytes : Packet → ℕ → Packet
set_total_bytes packet n = record packet { headers = set_last_total packet.headers n }
