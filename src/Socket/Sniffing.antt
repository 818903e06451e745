-- ===== src/Socket/Sniffing.antt =====
-- Packets of the wire that are sniffed while a socket is under test.
use tcp_fuzz.Prelude.{
  ℕ, ◌&&◌, not, Bool, true, false, Option, none, some, List, [], ◌∷◌, ◌++◌, ◌≡◌, ◌≢◌, refl,
}
use tcp_fuzz.Prelude.{ap, arith, All}
use tcp_fuzz.Packet.{Direction}
use tcp_fuzz.Verify.{TcpHeader, find_tcp}
use tcp_fuzz.Socket.{Tuple, Socket, socket_get_outbound, socket_get_inbound, is_equal_tuple}
use tcp_fuzz.Socket.Runner.{
  TcpView, PacketView, Config, State, match_live, find_socket_for_live_packet, is_listening,
  is_inbound, is_outbound, handle_listen_for_script_packet, handle_connect_for_script_packet,
}
use tcp_fuzz.Socket.Find.{
  PacketInfo, packet_view, tcp_view, flag, Lookup, find_socket, find_tcp_socket,
  find_or_create_socket_for_script_packet, is_script_packet_match_for_socket,
}
use tcp_fuzz.Socket.Outbound.{sniff, Sniffed, collect}

-- A socket under test.
abbrev pub under : Socket → Option ℕ → State
under socket port = record { socket_under_test = some socket; next_ephemeral_port = port }

-- A TCP packet with the SYN and ACK flags, and one with the ACK flag.
abbrev pub IsSynack : PacketInfo → TcpHeader → Type 0
IsSynack packet header =
    (find_tcp packet.fields.headers ≡ some header)
    × (flag header.syn ≡ true)
    × (flag header.ack ≡ true)

abbrev pub IsAck : PacketInfo → TcpHeader → Type 0
IsAck packet header = (find_tcp packet.fields.headers ≡ some header) × (flag header.ack ≡ true)

view-tcp :
    (packet : PacketInfo) (header : TcpHeader)
    → find_tcp packet.fields.headers ≡ some header
    → (packet_view packet).tcp ≡ tcp_view (some header)
unfolding packet_view
view-tcp packet header e = ap tcp_view e

pub and_false : (b : Bool) → (b && false) ≡ false
and_false true = refl
and_false false = refl

listen_refused :
    (config : Config) (port : ℕ) (socket : Socket) (kept : Option ℕ) (packet : PacketView)
    (tcp : TcpView) (direction : Direction)
    → is_listening socket.phase ≡ false
    → handle_listen_for_script_packet config port (under socket kept) packet tcp direction
      ≡ (none, under socket kept)
unfolding handle_listen_for_script_packet
listen_refused config port socket kept packet tcp direction h =
    rw
      (
        h,
        and_false (not config.is_wire_server),
        and_false (is_inbound direction),
        handle_listen_for_script_packet,
      )
      refl

connect_refused :
    (config : Config) (socket : Socket) (kept : Option ℕ) (packet : PacketView) (tcp : TcpView)
    (direction : Direction)
    → tcp.ack ≡ true
    → handle_connect_for_script_packet config (under socket kept) packet tcp direction
      ≡ (none, under socket kept)
unfolding handle_connect_for_script_packet
connect_refused config socket kept packet tcp direction h =
    rw (h, and_false tcp.syn, and_false (is_outbound direction), handle_connect_for_script_packet)
      refl

matches-tcp :
    (socket : Socket) (packet : PacketView) (tcp : TcpView)
    → socket.protocol ≡ 6
    → packet.tcp ≡ some tcp
    → is_script_packet_match_for_socket packet socket ≡ some true
unfolding is_script_packet_match_for_socket
matches-tcp socket packet tcp e6 et = rw (e6, et) refl

find_socket-tcp :
    (socket : Socket) (kept : Option ℕ) (packet : PacketView) (tcp : TcpView)
    → socket.protocol ≡ 6
    → packet.tcp ≡ some tcp
    → find_socket (under socket kept) packet ≡ some (Lookup.found (some socket))
unfolding find_socket
find_socket-tcp socket kept packet tcp e6 et =
    rw (matches-tcp socket packet tcp e6 et, find_socket) refl

-- A TCP socket that does not listen takes every TCP packet with the ACK flag.
pub find_known :
    (config : Config) (port : ℕ) (socket : Socket) (kept : Option ℕ) (packet : PacketView)
    (tcp : TcpView) (direction : Direction)
    → socket.protocol ≡ 6
    → is_listening socket.phase ≡ false
    → tcp.ack ≡ true
    → packet.tcp ≡ some tcp
    → find_or_create_socket_for_script_packet config port (under socket kept) packet direction
      ≡ some (Lookup.found (some socket), under socket kept)
unfolding find_or_create_socket_for_script_packet find_tcp_socket
find_known config port socket kept packet tcp direction e6 listening ack et =
    rw
      (
        et,
        find_or_create_socket_for_script_packet,
        find_tcp_socket,
        listen_refused config port socket kept packet tcp direction listening,
        connect_refused config socket kept packet tcp direction ack,
        find_socket-tcp socket kept packet tcp e6 et,
      )
      refl

pub match_live-outbound :
    (socket : Socket) (packet : PacketView)
    → packet.tuple ≡ socket_get_outbound socket.live
    → socket.live.local.ip ≢ socket.live.remote.ip
    → match_live socket packet ≡ some Direction.outbound
unfolding match_live socket_get_outbound socket_get_inbound is_equal_tuple
match_live-outbound socket packet e apart =
    let src_ip : packet.tuple.src.ip ≡ socket.live.local.ip = ap (λ (t : Tuple). t.src.ip) e in
    let src_port : packet.tuple.src.port ≡ socket.live.local.port =
      ap (λ (t : Tuple). t.src.port) e in
    let dst_ip : packet.tuple.dst.ip ≡ socket.live.remote.ip = ap (λ (t : Tuple). t.dst.ip) e in
    let dst_port : packet.tuple.dst.port ≡ socket.live.remote.port =
      ap (λ (t : Tuple). t.dst.port) e in
    ground arith

pub sniff-known :
    (socket : Socket) (kept : Option ℕ) (packet : PacketView)
    → match_live socket packet ≡ some Direction.outbound
    → sniff (under socket kept) packet ≡ some (socket, under socket kept)
unfolding sniff find_socket_for_live_packet
sniff-known socket kept packet m = rw (m, sniff, find_socket_for_live_packet) refl

-- Packets that are not of the socket are passed over.
pub collect-skip :
    (config : Config) (script_packet : PacketInfo) (state : State) (sniffed : Sniffed)
    (noise arrivals : List PacketInfo)
    → All (λ p. sniff state (packet_view p) ≡ none) noise
    → collect config script_packet state sniffed (noise ++ arrivals)
      ≡ collect config script_packet state sniffed arrivals
unfolding collect
collect-skip config script_packet state sniffed [] arrivals h = refl
collect-skip config script_packet state sniffed (p ∷ noise) arrivals h =
    rw (h.0, collect) (collect-skip config script_packet state sniffed noise arrivals h.1)
