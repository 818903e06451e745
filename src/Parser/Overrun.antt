-- ===== src/Parser/Overrun.antt =====
-- parse_packet of packet_parser.c on an IPv4 header that announces another one, where the buffer ends.
use tcp_fuzz.Prelude.{ℕ, List, [], ◌∷◌}
use tcp_fuzz.Packet.{Packet}

-- The bytes of an IPv4 header without options that are free: all but the version and the lengths, what
-- says that the packet is a fragment, and the protocol. The addresses are two words of two bytes each.
pub record HeaderBytes : Type 0 where
  pub tos : ℕ
  pub id : ℕ × ℕ
  pub ttl : ℕ
  pub check : ℕ × ℕ
  pub src : (ℕ × ℕ) × (ℕ × ℕ)
  pub dst : (ℕ × ℕ) × (ℕ × ℕ)

-- An IPv4 header of a datagram of 20 bytes, no fragment, with this protocol.
abbrev pub lone_header : HeaderBytes → ℕ → List ℕ
lone_header h protocol =
    0x45 ∷ h.tos ∷ 0 ∷ 20 ∷ h.id.0 ∷ h.id.1 ∷ 0 ∷ 0 ∷ h.ttl ∷ protocol ∷ h.check.0 ∷ h.check.1
    ∷ h.src.0.0 ∷ h.src.0.1 ∷ h.src.1.0 ∷ h.src.1.1 ∷ h.dst.0.0 ∷ h.dst.0.1 ∷ h.dst.1.0 ∷ h.dst.1.1
    ∷ []
