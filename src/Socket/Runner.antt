-- ===== src/Socket/Runner.antt =====
-- run_packet.c: which socket a packet of the script or of the wire belongs to, and what is learnt from
-- it. There is one socket under test; `none` in place of a socket is NULL.
use tcp_fuzz.Prelude.{
  ℕ, ◌==◌, ◌&&◌, ◌||◌, not, if◌then◌else◌, Bool, true, false, Option, none, some, List,
}
use tcp_fuzz.Packet.{Direction}
use tcp_fuzz.Socket.{SocketPhase, Endpoint, Tuple, SocketState, Socket, socket_get_outbound}
use tcp_fuzz.Verify.{no_tcp_header, TcpHeader, PacketFields}
use tcp_fuzz.Socket.{socket_get_inbound, is_equal_tuple}

pub record TcpView : Type 0 where
  pub seq : ℕ
  pub syn : Bool
  pub ack : Bool

-- What the functions here see of a packet: what get_packet_tuple and packet_ip_protocol return, and
-- which headers there are.
pub record PacketView : Type 0 where
  pub tuple : Tuple
  pub ip_protocol : ℕ
  pub tcp : Option TcpView
  pub udp : Bool
  pub icmpv4 : Bool
  pub icmpv6 : Bool

-- What the runner calls and this model takes as given. Of the functions that answer STATUS_OK or STATUS_ERR
-- the answer is a Bool: the checksum of a sniffed packet (verify_outbound_live_checksums), whether the
-- options of a packet can be read (find_tcp_timestamp and offset_sack_blocks), and the comparisons of a
-- sniffed packet with the script's that are not of header fields: flow label, options of TCP, bytes of the
-- payload, and the time. `aggregate_packets` makes one packet of the fragments, the last one first.
-- `overwritten` is what a TCP header is where the loop that fills the payload runs into it, and
-- `netdev_send` whether the network device takes a packet.
pub record Outside : Type 0 where
  pub verify_outbound_live_checksums : PacketFields → Bool
  pub read_options : PacketFields → Bool
  pub verify_outbound_live_ipv6_flowlabel : PacketFields → PacketFields → Bool
  pub verify_outbound_live_tcp_options : PacketFields → PacketFields → Bool
  pub verify_outbound_live_payload : PacketFields → PacketFields → Bool
  pub verify_time : PacketFields → Bool
  pub aggregate_packets : List PacketFields → PacketFields
  pub overwritten : PacketFields → TcpHeader → TcpHeader
  pub netdev_send : PacketFields → Bool

-- `checker` is a variable of its own in the code, and `outside` is not in the struct.
pub record Config : Type 0 where
  pub is_wire_server : Bool
  pub is_anyip : Bool
  pub strict_segments : Bool
  pub checker : Bool
  pub non_fatal_packet : Bool
  pub live_remote_ip : ℕ
  pub live_local_ip : ℕ
  pub live_bind_port : ℕ
  pub live_connect_port : ℕ
  pub outside : Outside

-- `socket_under_test`, and the port that was kept for it; `none` is -1.
pub record State : Type 0 where
  pub socket_under_test : Option Socket
  pub next_ephemeral_port : Option ℕ

abbrev no_endpoint : Endpoint
no_endpoint = record { ip = 0; port = 0 }

abbrev no_state : SocketState
no_state = record { local = no_endpoint; local_isn = 0; remote = no_endpoint; remote_isn = 0 }

-- `calloc` leaves every field 0; the descriptors and the map of timestamps are left out.
abbrev pub socket_new : Socket
socket_new = record {
  phase = SocketPhase.init;
  protocol = 0;
  script = no_state;
  live = no_state;
  last_outbound_tcp_header = no_tcp_header;
  last_injected_tcp_header = no_tcp_header;
  last_injected_tcp_payload_len = 0;
}

-- `socket->state == SOCKET_PASSIVE_LISTENING` and the like.
abbrev pub is_listening : SocketPhase → Bool
is_listening SocketPhase.passive_listening = true
is_listening _ = false

abbrev pub is_connecting : SocketPhase → Bool
is_connecting SocketPhase.active_connecting = true
is_connecting _ = false

abbrev pub is_syn_sent : SocketPhase → Bool
is_syn_sent SocketPhase.active_syn_sent = true
is_syn_sent _ = false

abbrev pub has_tcp : Option TcpView → Bool
has_tcp none = false
has_tcp (some tcp) = true

-- `packet->tcp && packet->tcp->syn && !packet->tcp->ack`
abbrev pub is_first_syn : Option TcpView → Bool
is_first_syn none = false
is_first_syn (some tcp) = tcp.syn && not tcp.ack

abbrev pub is_outbound : Direction → Bool
is_outbound Direction.outbound = true
is_outbound _ = false

abbrev pub is_inbound : Direction → Bool
is_inbound Direction.inbound = true
is_inbound _ = false

-- Whether a live packet belongs to a socket, and in which direction.
unfoldable pub match_live : Socket → PacketView → Option Direction
unfolding is_equal_tuple socket_get_inbound socket_get_outbound
match_live socket packet =
    let is_icmp =
      (socket.protocol == 1 && packet.icmpv4) || (socket.protocol == 58 && packet.icmpv6) in
    let inbound = socket_get_inbound socket.live in
    let outbound = socket_get_outbound socket.live in
    if is_equal_tuple packet.tuple inbound
      || (is_icmp
          && (packet.tuple.dst.ip == inbound.dst.ip && (packet.tuple.src.ip == inbound.src.ip)))
    then some Direction.inbound
    else if is_equal_tuple packet.tuple outbound
        || (is_icmp
            && (packet.tuple.dst.ip == outbound.dst.ip && (packet.tuple.src.ip == outbound.src.ip)))
    then some Direction.outbound
    else none

unfoldable pub find_socket_for_live_packet : State → PacketView → Option (Socket × Direction)
unfolding match_live
find_socket_for_live_packet state packet = elim state.socket_under_test [
  | none ↦ none
  | some socket ↦ elim (match_live socket packet) [
    | none ↦ none
    | some direction ↦ some (socket, direction)
  ]
]

-- The test of find_connect_for_live_packet.
unfoldable pub matches_connect : Socket → PacketView → Bool
matches_connect socket packet =
    let is_udp_match = packet.udp && (socket.protocol == 17 && is_connecting socket.phase) in
    let is_icmp_match =
      ((packet.icmpv4 && (socket.protocol == 1)) || (packet.icmpv6 && (socket.protocol == 58)))
      && is_connecting socket.phase in
    let is_tcp_match =
      is_first_syn packet.tcp && (socket.protocol == 6 && is_syn_sent socket.phase) in
    (is_udp_match || (is_tcp_match || is_icmp_match))
    && (packet.tuple.dst.ip == socket.live.remote.ip
        && (is_icmp_match || (packet.tuple.dst.port == socket.live.remote.port)))

-- What the socket learns from an outbound live packet: the local endpoint, and the sequence number of
-- a TCP one.
unfoldable pub learn : Socket → PacketView → Socket
learn socket packet = record socket {
  live = record socket.live {
    local = packet.tuple.src;
    local_isn = elim packet.tcp [ none ↦ socket.live.local_isn | some tcp ↦ tcp.seq ];
  };
}

-- The socket if there is one, which is then outbound, and the state with what was learnt.
unfoldable pub find_connect_for_live_packet : State → PacketView → Option Socket × State
unfolding matches_connect learn
find_connect_for_live_packet state packet = elim state.socket_under_test [
  | none ↦ (none, state)
  | some socket ↦
      if matches_connect socket packet
      then (
        some (learn socket packet),
        record state { socket_under_test = some (learn socket packet) },
      )
      else (none, state)
]

-- The cached port, once, and then what the system picks.
unfoldable pub next_ephemeral_port : ℕ → State → ℕ × State
next_ephemeral_port ephemeral_port state = elim state.next_ephemeral_port [
  | some port ↦ (port, record state { next_ephemeral_port = none })
  | none ↦ (ephemeral_port, state)
]

-- Whether the socket under test accepts an inbound packet of the script.
abbrev pub accepts : Config → Option Socket → Bool
accepts config none = true
accepts config (some socket) = not config.is_wire_server && is_listening socket.phase

-- `tcp` is the TCP header, which the caller has tested for. `ephemeral_port` is a port of the system.
unfoldable pub handle_listen_for_script_packet :
    Config → ℕ → State → PacketView → TcpView → Direction → Option Socket × State
unfolding next_ephemeral_port
handle_listen_for_script_packet config ephemeral_port state packet tcp direction =
    if is_inbound direction && accepts config state.socket_under_test
    then (let (port, state') = next_ephemeral_port ephemeral_port state in
        let socket : Socket = record socket_new {
          phase = SocketPhase.passive_packet_received;
          protocol = packet.ip_protocol;
          script = record {
            local = packet.tuple.dst;
            local_isn = 0;
            remote = packet.tuple.src;
            remote_isn = tcp.seq;
          };
          live = record {
            local = record { ip = config.live_local_ip; port = config.live_bind_port };
            local_isn = 0;
            remote = record { ip = config.live_remote_ip; port = port };
            remote_isn = tcp.seq;
          };
        } in
        (some socket, record state' { socket_under_test = some socket }))
    else (none, state)

-- The socket that would send the outbound SYN: on a wire server a new one.
abbrev pub connects : Config → PacketView → Option Socket → Option Socket
connects config packet none =
    if config.is_wire_server
    then some (record socket_new {
      protocol = packet.ip_protocol;
      live = record no_state {
        remote = record { ip = config.live_remote_ip; port = config.live_connect_port };
      };
    })
    else none
connects config packet (some socket) =
    if not config.is_wire_server && is_connecting socket.phase then some socket else none

unfoldable pub handle_connect_for_script_packet :
    Config → State → PacketView → TcpView → Direction → Option Socket × State
handle_connect_for_script_packet config state packet tcp direction =
    if is_outbound direction && (tcp.syn && not tcp.ack)
    then (elim (connects config packet state.socket_under_test) [
      | none ↦ (none, state)
      | some found ↦
          let socket : Socket = record found {
            phase = SocketPhase.active_syn_sent;
            script = record found.script {
              remote = packet.tuple.dst;
              local = packet.tuple.src;
              local_isn = tcp.seq;
            };
          } in
          (some socket, record state { socket_under_test = some socket })
    ])
    else (none, state)
