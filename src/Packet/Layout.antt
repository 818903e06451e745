-- ===== src/Packet/Layout.antt =====
-- Where the headers of a packet lie: one behind the other from the end of the link-layer header,
-- each with its contents inside the bytes that were received.
use tcp_fuzz.Prelude.{ℕ, ◌+◌, ◌≤◌, ◌<◌, ◌^◌, ◌≡◌, refl, Option, none, some, List, [], ◌∷◌, ◌++◌}
use tcp_fuzz.Prelude.{length, All}
use tcp_fuzz.Packet.{Header, HeaderType, Packet}
use tcp_fuzz.Packet.{set_last_total}

-- The offset just behind the last header, if the first one starts at `s`.
abbrev pub headers_end : ℕ → List Header → ℕ
headers_end s [] = s
headers_end s (h ∷ hs) = headers_end (s + h.header_bytes) hs

abbrev pub IsContiguous : ℕ → List Header → Type 0
IsContiguous s [] = Unit
IsContiguous s (h ∷ hs) = (h.ptr ≡ s) × IsContiguous (s + h.header_bytes) hs

-- The header and what it says it holds end by `end`.
abbrev pub IsInside : ℕ → Header → Type 0
IsInside end h = (h.header_bytes ≤ h.total_bytes) × (h.ptr + h.total_bytes ≤ end)

-- A pointer is NULL, or `n` bytes from it on lie before `end`.
abbrev pub HasRoom : ℕ → ℕ → Option ℕ → Type 0
HasRoom end n none = Unit
HasRoom end n (some p) = p + n ≤ end

-- What the parser keeps true of a packet whose received bytes end at `end`.
pub record IsLaidOut (end : ℕ) (packet : Packet) : Type 0 where
  pub room : end < length packet.buffer
  pub sized : packet.buffer_bytes ≡ length packet.buffer
  pub small : packet.l2_header_bytes + length packet.buffer < 2 ^ 31
  pub few : length packet.headers ≤ 6
  pub contiguous : IsContiguous packet.l2_header_bytes packet.headers
  pub inside : All (IsInside end) packet.headers
  pub ipv4_room : HasRoom end 20 packet.ipv4
  pub ipv6_room : HasRoom end 40 packet.ipv6
  pub tcp_room : HasRoom end 20 packet.tcp
  pub udp_room : HasRoom end 8 packet.udp
  pub icmpv4_room : HasRoom end 8 packet.icmpv4
  pub icmpv6_room : HasRoom end 8 packet.icmpv6

-- The header for `n` bytes from `p` on that `packet_append_header` and the assignment of
-- `total_bytes` leave behind.
abbrev pub header_at : HeaderType → ℕ → ℕ → ℕ → Header
header_at type n total p = record { type = type; header_bytes = n; total_bytes = total; ptr = p }

pub headers_end-append :
    (s : ℕ) (hs : List Header) (h : Header)
    → headers_end s (hs ++ (h ∷ [])) ≡ headers_end s hs + h.header_bytes
headers_end-append s [] h = refl
headers_end-append s (g ∷ hs) h = headers_end-append (s + g.header_bytes) hs h

pub IsContiguous-append :
    (s : ℕ) (hs : List Header) (h : Header)
    → IsContiguous s hs
    → h.ptr ≡ headers_end s hs
    → IsContiguous s (hs ++ (h ∷ []))
IsContiguous-append s [] h c e = (e, tt)
IsContiguous-append s (g ∷ hs) h c e = (c.0, IsContiguous-append (s + g.header_bytes) hs h c.1 e)

pub set_last_total-append :
    (hs : List Header) (h : Header) (n : ℕ)
    → set_last_total (hs ++ (h ∷ [])) n ≡ hs ++ (record h { total_bytes = n } ∷ [])
set_last_total-append [] h n = refl
set_last_total-append (g ∷ []) h n = refl
set_last_total-append (g ∷ k ∷ hs) h n = λ i. g ∷ set_last_total-append (k ∷ hs) h n i
