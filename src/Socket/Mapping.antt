-- ===== src/Socket/Mapping.antt =====
-- The two directions of the mapping of sequence numbers, socket.h and run_packet.c.
use tcp_fuzz.Prelude.{ℕ, ◌≡◌, refl, add32, neg32, IsU32}
use tcp_fuzz.Prelude.{Bool, true, false, if◌then◌else◌, List, [], ◌∷◌, All, add32-neg32}
use tcp_fuzz.Socket.{Socket, SackBlock, SequenceFields, offset_blocks, remap}
use tcp_fuzz.Socket.{map_inbound_sequence, tcp_convert_seq_number}
use tcp_fuzz.Socket.{remote_seq_script_to_live_offset, local_seq_script_to_live_offset}
use tcp_fuzz.Socket.{remote_seq_live_to_script_offset, local_seq_live_to_script_offset}

abbrev pub IsU32Block : SackBlock → Type 0
IsU32Block block = IsU32 block.left × IsU32 block.right

-- Every number fits 32 bits.
pub record IsU32Fields (tcp : SequenceFields) : Type 0 where
  pub seq : IsU32 tcp.seq
  pub ack_seq : IsU32 tcp.ack_seq
  pub sack : All IsU32Block tcp.sack

offset_back :
    (blocks : List SackBlock) (o : ℕ)
    → All IsU32Block blocks
    → offset_blocks (offset_blocks blocks o) (neg32 o) ≡ blocks
unfolding offset_blocks
offset_back [] o h = refl
offset_back (block ∷ blocks) o ((l, r), h) =
    rw (add32-neg32 block.left o l, add32-neg32 block.right o r, offset_back blocks o h) refl

ack_back :
    (ack : Bool) (v o : ℕ)
    → IsU32 v
    → (if ack
        then add32 (if ack then add32 v o else v) (neg32 o)
        else (if ack then add32 v o else v))
      ≡ v
ack_back true v o h = add32-neg32 v o h
ack_back false v o h = refl

remap_back :
    (tcp : SequenceFields) (a b : ℕ)
    → IsU32Fields tcp
    → remap (remap tcp a b) (neg32 a) (neg32 b) ≡ tcp
unfolding remap
remap_back tcp a b h =
    rw
      (
        add32-neg32 tcp.seq a h.seq,
        ack_back tcp.ack tcp.ack_seq b h.ack_seq,
        offset_back tcp.sack b h.sack,
      )
      refl

-- An outbound packet whose sequence number is in the space of the local end, and its acknowledgement
-- and SACK blocks in that of the remote end: what the script says, as it is on the wire.
abbrev pub outbound_live : Socket → SequenceFields → SequenceFields
outbound_live socket tcp =
    remap tcp (local_seq_script_to_live_offset socket tcp.syn)
      (remote_seq_script_to_live_offset socket tcp.syn)

-- With fields of 32 bits, tcp_convert_seq_number gives back what the script says of an outbound
-- packet that carries the live numbers for it, and the offsets from live to script undo what
-- map_inbound_packet did to an inbound one: for SYN packets and others, with or without ACK, and for
-- every SACK block.
pub convert-live :
    (socket : Socket) (tcp : SequenceFields)
    → IsU32Fields tcp
    → (tcp_convert_seq_number socket (outbound_live socket tcp) ≡ tcp)
      × (remap
            (map_inbound_sequence socket tcp)
            (remote_seq_live_to_script_offset socket tcp.syn)
            (local_seq_live_to_script_offset socket tcp.syn)
          ≡ tcp)
unfolding tcp_convert_seq_number map_inbound_sequence remote_seq_live_to_script_offset
    local_seq_live_to_script_offset
convert-live socket tcp h = (
  remap_back tcp (local_seq_script_to_live_offset socket tcp.syn)
      (remote_seq_script_to_live_offset socket tcp.syn) h,
  remap_back tcp (remote_seq_script_to_live_offset socket tcp.syn)
      (local_seq_script_to_live_offset socket tcp.syn) h,
)
