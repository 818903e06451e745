-- ===== src/Socket/Find.antt =====
-- run_packet.c: the socket for a packet of the script, found or created.
use tcp_fuzz.Prelude.{
  ℕ, ◌==◌, ◌&&◌, ◌||◌, not, if◌then◌else◌, Bool, true, false, Option, none, some, List, [], ◌∷◌,
}
use tcp_fuzz.Packet.{Direction}
use tcp_fuzz.Verify.{TcpHeader, HeaderFields, PacketFields, find_tcp}
use tcp_fuzz.Socket.{Tuple, Socket}
use tcp_fuzz.Socket.Runner.{
  TcpView, PacketView, Config, State, has_tcp, handle_listen_for_script_packet,
  handle_connect_for_script_packet,
}

-- A packet of the script or of the wire.
pub record PacketInfo : Type 0 where
  pub tuple : Tuple
  pub ip_protocol : ℕ
  pub fields : PacketFields

abbrev any : (HeaderFields → Bool) → List HeaderFields → Bool
any f [] = false
any f (header ∷ headers) = f header || any f headers

abbrev is_udp : HeaderFields → Bool
is_udp (HeaderFields.udp len) = true
is_udp _ = false

abbrev is_icmpv4 : HeaderFields → Bool
is_icmpv4 (HeaderFields.icmpv4 type code) = true
is_icmpv4 _ = false

abbrev is_icmpv6 : HeaderFields → Bool
is_icmpv6 (HeaderFields.icmpv6 type code) = true
is_icmpv6 _ = false

abbrev pub flag : ℕ → Bool
flag bit = not (bit == 0)

abbrev pub tcp_view : Option TcpHeader → Option TcpView
tcp_view none = none
tcp_view (some header) =
    some (record { seq = header.seq; syn = flag header.syn; ack = flag header.ack })

unfoldable pub packet_view : PacketInfo → PacketView
unfolding find_tcp
packet_view packet = record {
  tuple = packet.tuple;
  ip_protocol = packet.ip_protocol;
  tcp = tcp_view (find_tcp packet.fields.headers);
  udp = any is_udp packet.fields.headers;
  icmpv4 = any is_icmpv4 packet.fields.headers;
  icmpv6 = any is_icmpv6 packet.fields.headers;
}

-- `none` is the failed assert for a protocol that is none of these.
unfoldable pub is_script_packet_match_for_socket : PacketView → Socket → Option Bool
is_script_packet_match_for_socket packet socket =
    let is_packet_icmp = packet.icmpv4 || packet.icmpv6 in
    if socket.protocol == 6
    then some (has_tcp packet.tcp || is_packet_icmp)
    else if socket.protocol == 17
    then some (packet.udp || is_packet_icmp)
    else if socket.protocol == 1
    then some packet.icmpv4
    else if socket.protocol == 58
    then some packet.icmpv6
    else none

-- STATUS_OK with the socket, which may be NULL, or STATUS_ERR.
pub data Lookup : Type 0 where
  found : Option Socket → Lookup
  no_socket : Lookup

-- A packet of TCP or UDP with a port belongs to the socket under test, if there is one or not.
unfoldable pub foreign_port : PacketView → Option Socket → Lookup
foreign_port packet socket =
    let has_port = not (packet.tuple.src.port == 0) || not (packet.tuple.dst.port == 0) in
    if (has_tcp packet.tcp || packet.udp) && has_port then found socket else no_socket

-- The tests behind those for a listening and a connecting socket.
unfoldable pub find_socket : State → PacketView → Option Lookup
unfolding is_script_packet_match_for_socket foreign_port
find_socket state packet = elim state.socket_under_test [
  | none ↦ some (foreign_port packet none)
  | some socket ↦ elim (is_script_packet_match_for_socket packet socket) [
    | none ↦ none
    | some true ↦ some (found (some socket))
    | some false ↦ some (foreign_port packet (some socket))
  ]
]

abbrev pub with_state : State → Option Lookup → Option (Lookup × State)
with_state state none = none
with_state state (some lookup) = some (lookup, state)

-- The two tests for TCP: the number is a port of the system.
unfoldable pub find_tcp_socket :
    Config → ℕ → State → PacketView → TcpView → Direction → Option (Lookup × State)
unfolding find_socket handle_listen_for_script_packet handle_connect_for_script_packet
find_tcp_socket config ephemeral_port state packet tcp direction =
    let (listening, state') =
      handle_listen_for_script_packet config ephemeral_port state packet tcp direction in
    let (connecting, state'') =
      handle_connect_for_script_packet config state packet tcp direction in
    elim listening [
      | some socket ↦ some (found (some socket), state')
      | none ↦ elim connecting [
        | some socket ↦ some (found (some socket), state'')
        | none ↦ with_state state (find_socket state packet)
      ]
    ]

unfoldable pub find_or_create_socket_for_script_packet :
    Config → ℕ → State → PacketView → Direction → Option (Lookup × State)
unfolding find_tcp_socket find_socket
find_or_create_socket_for_script_packet config ephemeral_port state packet direction =
    elim packet.tcp [
      | none ↦ with_state state (find_socket state packet)
      | some tcp ↦ find_tcp_socket config ephemeral_port state packet tcp direction
    ]
