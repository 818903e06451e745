-- ===== src/Socket/Inbound.antt =====
-- run_packet.c: what do_inbound_script_packet makes of an inbound packet of the script before it sends it to
-- the stack. The options of TCP are left out: the fields of the headers are mapped.
use tcp_fuzz.Prelude.{
  ℕ, ◌==◌, ◌&&◌, ◌||◌, if◌then◌else◌, Bool, true, false, Option, none, some, List, [], ◌∷◌,
}
use tcp_fuzz.Verify.{TcpHeader, HeaderFields, find_tcp}
use tcp_fuzz.Socket.{
  SocketPhase, Tuple, Socket, SequenceFields, socket_get_inbound, map_inbound_sequence,
}
use tcp_fuzz.Socket.Runner.{TcpView, PacketView, Config, is_syn_sent}
use tcp_fuzz.Socket.Find.{PacketInfo, packet_view, flag}

abbrev pub is_synack_sent : SocketPhase → Bool
is_synack_sent SocketPhase.passive_synack_sent = true
is_synack_sent _ = false

-- `packet->tcp && packet->tcp->ack`
abbrev pub has_ack : Option TcpView → Bool
has_ack none = false
has_ack (some tcp) = tcp.ack

-- `packet->tcp && packet->tcp->syn && packet->tcp->ack`
abbrev pub is_synack : Option TcpView → Bool
is_synack none = false
is_synack (some tcp) = tcp.syn && tcp.ack

abbrev pub seq_of : Option TcpView → ℕ
seq_of none = 0
seq_of (some tcp) = tcp.seq

-- What the packet does to the state of the socket.
unfoldable pub inbound_phase : Socket → Option TcpView → Socket
inbound_phase socket tcp =
    if is_synack_sent socket.phase && has_ack tcp
    then record socket { phase = SocketPhase.passive_synack_acked }
    else if is_syn_sent socket.phase && is_synack tcp
    then record socket {
      phase = SocketPhase.active_syn_acked;
      script = record socket.script { remote_isn = seq_of tcp };
      live = record socket.live { remote_isn = seq_of tcp };
    }
    else socket

abbrev pub port_or : ℕ → ℕ → ℕ
port_or port default = if port == 0 then default else port

-- The addresses of a socket that sends nothing before it receives.
unfoldable pub fill_anyip : Config → Socket → PacketView → Socket
fill_anyip config socket packet =
    if config.is_anyip && (packet.udp || (packet.icmpv4 || packet.icmpv6))
    then record socket {
      live = record socket.live {
        remote = record {
          ip = config.live_remote_ip;
          port = port_or socket.live.remote.port config.live_connect_port;
        };
        local = record {
          ip = config.live_local_ip;
          port = port_or socket.live.local.port config.live_bind_port;
        };
      };
    }
    else socket

unfoldable pub update_tcp : (TcpHeader → TcpHeader) → List HeaderFields → List HeaderFields
update_tcp f [] = []
update_tcp f (HeaderFields.tcp header ∷ headers) = HeaderFields.tcp (f header) ∷ headers
update_tcp f (header ∷ headers) = header ∷ update_tcp f headers

abbrev pub sequence_fields : TcpHeader → SequenceFields
sequence_fields header = record {
  seq = header.seq;
  ack_seq = header.ack_seq;
  syn = flag header.syn;
  ack = flag header.ack;
  sack = [];
}

abbrev pub with_sequence : TcpHeader → SequenceFields → TcpHeader
with_sequence header fields = record header { seq = fields.seq; ack_seq = fields.ack_seq }

-- The ports of the script, where it gives any, are kept.
abbrev pub live_tuple : Tuple → Tuple → Tuple
live_tuple script inbound = record {
  src = record { ip = inbound.src.ip; port = port_or script.src.port inbound.src.port };
  dst = record { ip = inbound.dst.ip; port = port_or script.dst.port inbound.dst.port };
}

-- For a packet with a TCP header.
unfoldable pub map_inbound_packet : Socket → PacketInfo → PacketInfo
unfolding update_tcp map_inbound_sequence socket_get_inbound
map_inbound_packet socket packet = record packet {
  tuple = live_tuple packet.tuple (socket_get_inbound socket.live);
  fields = record packet.fields {
    headers =
        update_tcp
          (λ header. with_sequence header (map_inbound_sequence socket (sequence_fields header)))
          packet.fields.headers;
  };
}

-- Only an IPv4 header without options, and TCP behind it.
abbrev pub plain_ipv4 : List HeaderFields → Bool
plain_ipv4 (HeaderFields.ipv4 ip ∷ HeaderFields.tcp header ∷ headers) = ip.ihl == 5
plain_ipv4 _ = false

-- The loop that fills the payload starts 20 bytes and the length of the TCP header into the packet, which
-- is behind the headers of a packet with an IPv4 header of 20 bytes alone.
unfoldable pub fill_payload : Config → PacketInfo → PacketInfo
unfolding update_tcp
fill_payload config packet = if plain_ipv4 packet.fields.headers then packet else record packet {
  fields = record packet.fields {
    headers =
        update_tcp (λ header. config.outside.overwritten packet.fields header)
          packet.fields.headers;
  };
}

-- The socket, and the packet that is to be sent to the stack. `none` is the read through `packet->tcp`
-- where the payload is filled in, if the packet has no TCP header.
unfoldable pub inbound_live_packet : Config → Socket → PacketInfo → Option (Socket × PacketInfo)
unfolding inbound_phase fill_anyip fill_payload map_inbound_packet packet_view find_tcp
inbound_live_packet config socket packet =
    let view = packet_view packet in
    let mapped_for = fill_anyip config (inbound_phase socket view.tcp) view in
    let injected = map_inbound_packet mapped_for (fill_payload config packet) in
    elim (find_tcp injected.fields.headers) [
      | none ↦ none
      | some header ↦ some (
        record mapped_for {
          last_injected_tcp_header = header;
          last_injected_tcp_payload_len = packet.fields.payload_len;
        },
        injected,
      )
    ]
