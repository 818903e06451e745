-- ===== src/Packet/Copy.antt =====
-- packet_copy and its helpers, packet.c: a new buffer with headroom, and the pointers moved along.
-- The fields that the model leaves out (times, flags, the places of the timestamps) are copied too.
use tcp_fuzz.Prelude.{true, false, ◌∙◌}
use tcp_fuzz.Prelude.{ℕ, zero, suc, ◌+◌, ◌*◌, ◌≤◌, ◌≡◌, refl, ap, arith, leb, le→leb}
use tcp_fuzz.Prelude.{Option, none, some, List, [], ◌∷◌, ◌++◌, length, take, drop, replicate, add32}
use tcp_fuzz.Prelude.Fail.{◌>>=◌, ◌>>◌, guard}
use tcp_fuzz.Packet.{Packet, Header, packet_new}
use tcp_fuzz.Packet.Layout.{IsContiguous}

-- Where the outermost IP header is; `none` is a failed assert.
unfoldable pub packet_start : Packet → Option ℕ
packet_start packet = elim packet.headers [ [] ↦ none | header ∷ headers ↦ some header.ptr ]

-- The place behind the packet.
unfoldable pub packet_end : Packet → Option ℕ
unfolding packet_start
packet_end packet = do start ← packet_start packet; some (start + packet.ip_bytes)

unfoldable pub packet_copy_headers : List Header → ℕ → List Header
packet_copy_headers [] bytes_headroom = []
packet_copy_headers (header ∷ headers) bytes_headroom =
    record header { ptr = bytes_headroom + header.ptr } ∷ packet_copy_headers headers bytes_headroom

unfoldable pub offset_ptr : ℕ → Option ℕ → Option ℕ
offset_ptr bytes_headroom none = none
offset_ptr bytes_headroom (some old) = some (bytes_headroom + old)

-- The length of the link-layer header is not among what is copied.
unfoldable pub packet_duplicate_info : Packet → Packet → ℕ → ℕ → Packet
unfolding packet_copy_headers offset_ptr
packet_duplicate_info packet old_packet bytes_headroom extra_payload = record packet {
  ip_bytes = add32 old_packet.ip_bytes extra_payload;
  direction = old_packet.direction;
  headers = packet_copy_headers old_packet.headers bytes_headroom;
  ipv4 = offset_ptr bytes_headroom old_packet.ipv4;
  ipv6 = offset_ptr bytes_headroom old_packet.ipv6;
  tcp = offset_ptr bytes_headroom old_packet.tcp;
  udp = offset_ptr bytes_headroom old_packet.udp;
  icmpv4 = offset_ptr bytes_headroom old_packet.icmpv4;
  icmpv6 = offset_ptr bytes_headroom old_packet.icmpv6;
}

-- `none` is the failed assert, or a copy from behind the old buffer. The headroom is shown as zeros:
-- `packet_new` does not write to it.
unfoldable pub packet_copy_with_headroom : Packet → ℕ → Option Packet
unfolding packet_end packet_duplicate_info
packet_copy_with_headroom old_packet bytes_headroom = do
  bytes_used ← packet_end old_packet
  guard (leb bytes_used (128 * 1024))
  guard (leb bytes_used (length old_packet.buffer))
  let packet = packet_new (replicate bytes_headroom 0 ++ take bytes_used old_packet.buffer)
  some (packet_duplicate_info packet old_packet bytes_headroom 0)

unfoldable pub packet_copy : Packet → Option Packet
unfolding packet_copy_with_headroom
packet_copy old_packet = packet_copy_with_headroom old_packet 0

drop-headroom : (n : ℕ) (xs : List ℕ) → drop n (replicate n 0 ++ xs) ≡ xs
drop-headroom zero xs = refl
drop-headroom (suc n) xs = drop-headroom n xs

IsContiguous-copy :
    (headroom s : ℕ) (hs : List Header)
    → IsContiguous s hs
    → IsContiguous (headroom + s) (packet_copy_headers hs headroom)
unfolding packet_copy_headers
IsContiguous-copy headroom s [] c = tt
IsContiguous-copy headroom s (h ∷ hs) (e, c) = (
  omega arith,
  let next : headroom + s + h.header_bytes ≡ headroom + (s + h.header_bytes) = omega arith in
      rw (next) (IsContiguous-copy headroom (s + h.header_bytes) hs c),
)

-- The two pointers point to the same bytes, up to the end of both buffers, or both are NULL.
pub SameBytes : List ℕ → List ℕ → Option ℕ → Option ℕ → Type 0
SameBytes old new none none = Unit {0}
SameBytes old new (some p) (some q) = drop q new ≡ drop p old
SameBytes old new _ _ = false ≡ true

-- The headers are of the same types and lengths, and point to the same bytes.
pub SameHeaders : List ℕ → List ℕ → List Header → List Header → Type 0
SameHeaders old new [] [] = Unit {0}
SameHeaders old new (h ∷ hs) (k ∷ ks) =
    (k.type ≡ h.type)
    × (k.header_bytes ≡ h.header_bytes)
    × (k.total_bytes ≡ h.total_bytes)
    × (drop k.ptr new ≡ drop h.ptr old)
    × SameHeaders old new hs ks
SameHeaders old new _ _ = false ≡ true

drop-moved : (n p : ℕ) (xs : List ℕ) → drop (n + p) (replicate n 0 ++ xs) ≡ drop p xs
drop-moved zero p xs = ap (λ k. drop k xs) (omega arith)
drop-moved (suc n) p xs =
    let next : suc n + p ≡ suc (n + p) = omega arith in
    ap (λ k. drop k (replicate (suc n) 0 ++ xs)) next ∙ drop-moved n p xs

offset_ptr-SameBytes :
    (headroom : ℕ) (xs : List ℕ) (ptr : Option ℕ)
    → SameBytes xs (replicate headroom 0 ++ xs) ptr (offset_ptr headroom ptr)
unfolding SameBytes offset_ptr
offset_ptr-SameBytes headroom xs none = tt
offset_ptr-SameBytes headroom xs (some p) = drop-moved headroom p xs

packet_copy_headers-SameHeaders :
    (headroom : ℕ) (xs : List ℕ) (hs : List Header)
    → SameHeaders xs (replicate headroom 0 ++ xs) hs (packet_copy_headers hs headroom)
unfolding SameHeaders packet_copy_headers
packet_copy_headers-SameHeaders headroom xs [] = tt
packet_copy_headers-SameHeaders headroom xs (h ∷ hs) =
    (refl, refl, refl, drop-moved headroom h.ptr xs, packet_copy_headers-SameHeaders headroom xs hs)

-- What a copy with headroom has of the old packet: its bytes, its headers, with their types and lengths,
-- and its pointers to headers, all by the headroom further on, where the same bytes are, and its direction.
pub record IsCopy (old : Packet) (headroom end_ : ℕ) (packet : Packet) : Type 0 where
  pub bytes : drop headroom packet.buffer ≡ take end_ old.buffer
  pub contiguous : IsContiguous (headroom + old.l2_header_bytes) packet.headers
  pub headers : SameHeaders (take end_ old.buffer) packet.buffer old.headers packet.headers
  pub ipv4 : SameBytes (take end_ old.buffer) packet.buffer old.ipv4 packet.ipv4
  pub ipv6 : SameBytes (take end_ old.buffer) packet.buffer old.ipv6 packet.ipv6
  pub tcp : SameBytes (take end_ old.buffer) packet.buffer old.tcp packet.tcp
  pub udp : SameBytes (take end_ old.buffer) packet.buffer old.udp packet.udp
  pub icmpv4 : SameBytes (take end_ old.buffer) packet.buffer old.icmpv4 packet.icmpv4
  pub icmpv6 : SameBytes (take end_ old.buffer) packet.buffer old.icmpv6 packet.icmpv6
  pub direction : packet.direction ≡ old.direction
  pub ip_bytes : packet.ip_bytes ≡ old.ip_bytes
  pub moved_end : packet_end packet ≡ some (headroom + end_)

-- `packet_end` of a packet with these headers and this length, and of its copy.
moved_end_lem :
    (hs : List Header) (ip_bytes headroom end_ : ℕ)
    → (elim hs [ [] ↦ none | h ∷ rest ↦ some h.ptr ] >>= λ start. some (start + ip_bytes))
      ≡ some end_
    → end_ ≤ 128 * 1024
    → (add32 ip_bytes 0 ≡ ip_bytes)
      × ((elim (packet_copy_headers hs headroom) [ [] ↦ none | h ∷ rest ↦ some h.ptr ] >>= λ start.
            some (start + add32 ip_bytes 0))
          ≡ some (headroom + end_))
unfolding packet_copy_headers
moved_end_lem [] ip_bytes headroom end_ e short = ground arith
moved_end_lem (h ∷ hs) ip_bytes headroom end_ e short = ground arith

-- A packet with a header, of at most 128 kB and inside its buffer, whose headers are contiguous, is
-- copied with any headroom: the bytes and the end of the copy are as much further on as there is
-- headroom, its headers have the old types and lengths and are contiguous, its headers and its pointers
-- to headers point to the bytes that the old ones point to, and NULL stays NULL.
pub packet_copy_with_headroom-IsCopy :
    (old : Packet) (headroom end_ : ℕ)
    → packet_end old ≡ some end_
    → end_ ≤ length old.buffer
    → end_ ≤ 128 * 1024
    → IsContiguous old.l2_header_bytes old.headers
    → (packet : Packet) × (packet_copy_with_headroom old headroom ≡ some packet)
      × IsCopy old headroom end_ packet
unfolding packet_copy_with_headroom packet_duplicate_info
packet_copy_with_headroom-IsCopy old headroom end_ ended inside short c =
    let bytes = replicate {A = ℕ} headroom 0 ++ take end_ old.buffer in
    let (same, moved) = moved_end_lem old.headers old.ip_bytes headroom end_ ended short in
    (
      packet_duplicate_info (packet_new bytes) old headroom 0,
      rw (ended, le→leb _ _ short, le→leb _ _ inside) refl,
      record {
        bytes = drop-headroom headroom (take end_ old.buffer);
        contiguous = IsContiguous-copy headroom old.l2_header_bytes old.headers c;
        headers = packet_copy_headers-SameHeaders headroom (take end_ old.buffer) old.headers;
        ipv4 = offset_ptr-SameBytes headroom (take end_ old.buffer) old.ipv4;
        ipv6 = offset_ptr-SameBytes headroom (take end_ old.buffer) old.ipv6;
        tcp = offset_ptr-SameBytes headroom (take end_ old.buffer) old.tcp;
        udp = offset_ptr-SameBytes headroom (take end_ old.buffer) old.udp;
        icmpv4 = offset_ptr-SameBytes headroom (take end_ old.buffer) old.icmpv4;
        icmpv6 = offset_ptr-SameBytes headroom (take end_ old.buffer) old.icmpv6;
        direction = refl;
        ip_bytes = same;
        moved_end = moved;
      },
    )
