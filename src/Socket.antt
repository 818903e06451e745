-- ===== src/Socket.antt =====
-- socket.h and run_packet.c: the sockets of a test, in `Runner` how packets are matched with them,
-- and here how sequence numbers of the script and of the wire correspond.
-- A number of the script is absolute in a packet with the SYN flag and relative to the first SYN in
-- every other. `u32` sums wrap; the fields of a header are numbers in the order of the host.
pub mod Mapping
pub mod Runner
pub mod Learn
pub mod Find
pub mod Inbound
pub mod Verification
pub mod Outbound
pub mod Diagram
pub mod Loop
pub mod Phases
pub mod Sniffing
pub mod Synack
pub mod Handshake
pub mod Established
pub mod Reset
use tcp_fuzz.Prelude.{
  ◌==◌, ◌&&◌, ℕ, ◌+◌, ◌-◌, ◌%◌, ◌^◌, add32, neg32, if◌then◌else◌, Bool, List, [], ◌∷◌,
}
use tcp_fuzz.Verify.{TcpHeader, no_tcp_header}

-- `enum socket_state_t`
pub data SocketPhase : Type 0 where
  init new passive_listening passive_packet_received passive_synack_sent : SocketPhase
  passive_synack_acked active_connecting active_syn_sent active_syn_acked : SocketPhase

-- An address, with its family, is a number; so is a port.
pub record Endpoint : Type 0 where
  pub ip : ℕ
  pub port : ℕ

pub record Tuple : Type 0 where
  pub src : Endpoint
  pub dst : Endpoint

-- `struct socket_state`
pub record SocketState : Type 0 where
  pub local : Endpoint
  pub local_isn : ℕ
  pub remote : Endpoint
  pub remote_isn : ℕ

-- The headers are all 0 before the first packet. The map of timestamps and what goes with it are left
-- out.
pub record Socket : Type 0 where
  pub phase : SocketPhase
  pub protocol : ℕ
  pub script : SocketState
  pub live : SocketState
  pub last_outbound_tcp_header : TcpHeader
  pub last_injected_tcp_header : TcpHeader
  pub last_injected_tcp_payload_len : ℕ

unfoldable pub socket_get_outbound : SocketState → Tuple
socket_get_outbound socket_state = record { src = socket_state.local; dst = socket_state.remote }

unfoldable pub socket_get_inbound : SocketState → Tuple
socket_get_inbound socket_state = record { src = socket_state.remote; dst = socket_state.local }

abbrev pub is_equal_endpoint : Endpoint → Endpoint → Bool
is_equal_endpoint a b = a.ip == b.ip && (a.port == b.port)

unfoldable pub is_equal_tuple : Tuple → Tuple → Bool
is_equal_tuple a b = is_equal_endpoint a.src b.src && is_equal_endpoint a.dst b.dst

unfoldable pub remote_seq_script_to_live_offset : Socket → Bool → ℕ
remote_seq_script_to_live_offset socket is_syn = if is_syn then 0 else socket.live.remote_isn

unfoldable pub remote_seq_live_to_script_offset : Socket → Bool → ℕ
unfolding remote_seq_script_to_live_offset
remote_seq_live_to_script_offset socket is_syn =
    neg32 (remote_seq_script_to_live_offset socket is_syn)

unfoldable pub local_seq_script_to_live_offset : Socket → Bool → ℕ
local_seq_script_to_live_offset socket is_syn =
    if is_syn
    then add32 socket.live.local_isn (neg32 socket.script.local_isn)
    else socket.live.local_isn

unfoldable pub local_seq_live_to_script_offset : Socket → Bool → ℕ
unfolding local_seq_script_to_live_offset
local_seq_live_to_script_offset socket is_syn =
    neg32 (local_seq_script_to_live_offset socket is_syn)

-- `struct sack_block`
pub record SackBlock : Type 0 where
  pub left : ℕ
  pub right : ℕ

-- The fields of a TCP header that are mapped, and the blocks of its SACK options.
pub record SequenceFields : Type 0 where
  pub seq : ℕ
  pub ack_seq : ℕ
  pub syn : Bool
  pub ack : Bool
  pub sack : List SackBlock

-- The loop over the blocks of a SACK option in offset_sack_blocks. A SACK option without any block, on
-- which that function stops with STATUS_ERR, is left out: the fields hold the blocks that there are.
unfoldable pub offset_blocks : List SackBlock → ℕ → List SackBlock
offset_blocks [] ack_offset = []
offset_blocks (block ∷ blocks) ack_offset =
    record { left = add32 block.left ack_offset; right = add32 block.right ack_offset }
    ∷ offset_blocks blocks ack_offset

-- The two remaps: the sequence number by one offset, the acknowledgement and the blocks by another.
unfoldable pub remap : SequenceFields → ℕ → ℕ → SequenceFields
unfolding offset_blocks
remap tcp seq_offset ack_offset = record tcp {
  seq = add32 tcp.seq seq_offset;
  ack_seq = if tcp.ack then add32 tcp.ack_seq ack_offset else tcp.ack_seq;
  sack = offset_blocks tcp.sack ack_offset;
}

-- Of map_inbound_packet, the remap of the sequence numbers from script to live.
unfoldable pub map_inbound_sequence : Socket → SequenceFields → SequenceFields
unfolding remap remote_seq_script_to_live_offset local_seq_script_to_live_offset
map_inbound_sequence socket tcp =
    remap tcp (remote_seq_script_to_live_offset socket tcp.syn)
      (local_seq_script_to_live_offset socket tcp.syn)

unfoldable pub tcp_convert_seq_number : Socket → SequenceFields → SequenceFields
unfolding remap remote_seq_live_to_script_offset local_seq_live_to_script_offset
tcp_convert_seq_number socket tcp =
    remap tcp (local_seq_live_to_script_offset socket tcp.syn)
      (remote_seq_live_to_script_offset socket tcp.syn)
