-- ===== src/Socket/Learn.antt =====
-- The functions of `Runner` one after the other: the first packets of a connection.
use tcp_fuzz.Prelude.{true, false, Option, none, some, ◌≡◌, refl, ◌≢◌, arith}
use mathlib.Core.Option.{some-injective, none-ne-some}
use tcp_fuzz.Packet.{Direction}
use tcp_fuzz.Socket.{SocketPhase, Endpoint, Socket}
use tcp_fuzz.Socket.{local_seq_live_to_script_offset, local_seq_script_to_live_offset}
use tcp_fuzz.Socket.Runner.{
  PacketView, State, match_live, find_socket_for_live_packet, matches_connect,
}
use tcp_fuzz.Prelude.{sym, ap, ◌∙◌, IsU32, add32, Bool-cases, Option-cases, inl, inr}
use tcp_fuzz.Socket.Runner.{
  Config, TcpView, handle_connect_for_script_packet, learn, find_connect_for_live_packet,
}

-- What the test of find_connect_for_live_packet says of the addresses.
matches_connect-remote :
    (socket : Socket) (packet : PacketView)
    → matches_connect socket packet ≡ true
    → packet.tuple.dst.ip ≡ socket.live.remote.ip
unfolding matches_connect
matches_connect-remote socket packet h = ground arith

match_live-learn :
    (socket : Socket) (packet : PacketView)
    → matches_connect socket packet ≡ true
    → packet.tuple.src.ip ≢ packet.tuple.dst.ip
    → match_live (learn socket packet) packet ≡ some Direction.outbound
unfolding matches_connect match_live learn
match_live-learn socket packet h apart = ground (arith, matches_connect-remote socket packet h)

-- A packet that the test refuses, and one that it accepts.
find_connect-refused :
    (state : State) (old : Socket) (packet : PacketView)
    → state.socket_under_test ≡ some old
    → matches_connect old packet ≡ false
    → (find_connect_for_live_packet state packet).0 ≡ none
unfolding find_connect_for_live_packet
find_connect-refused state old packet e m = rw (e, m, find_connect_for_live_packet) refl

find_connect-accepted :
    (state : State) (old : Socket) (packet : PacketView)
    → state.socket_under_test ≡ some old
    → matches_connect old packet ≡ true
    → find_connect_for_live_packet state packet
      ≡ (some (learn old packet), record state { socket_under_test = some (learn old packet) })
unfolding find_connect_for_live_packet
find_connect-accepted state old packet e m = rw (e, m, find_connect_for_live_packet) refl

find_connect-none :
    (state : State) (packet : PacketView)
    → state.socket_under_test ≡ none
    → (find_connect_for_live_packet state packet).0 ≡ none
unfolding find_connect_for_live_packet
find_connect-none state packet e = rw (e, find_connect_for_live_packet) refl

find_socket-known :
    (state : State) (socket : Socket) (packet : PacketView) (direction : Direction)
    → state.socket_under_test ≡ some socket
    → match_live socket packet ≡ some direction
    → find_socket_for_live_packet state packet ≡ some (socket, direction)
unfolding find_socket_for_live_packet
find_socket-known state socket packet direction e m = rw (e, m, find_socket_for_live_packet) refl

-- When find_connect_for_live_packet matches a live packet with the connecting socket, between two
-- addresses, then find_socket_for_live_packet finds that socket for the packet from then on, and knows
-- it as outbound.
pub find_connect-find_socket :
    (state : State) (packet : PacketView) (socket : Socket)
    → (find_connect_for_live_packet state packet).0 ≡ some socket
    → packet.tuple.src.ip ≢ packet.tuple.dst.ip
    → find_socket_for_live_packet (find_connect_for_live_packet state packet).1 packet
      ≡ some (socket, Direction.outbound)
find_connect-find_socket state packet socket h apart = elim (Option-cases state.socket_under_test) [
  | inl e ↦ absurd (none-ne-some socket (sym (find_connect-none state packet e) ∙ h))
  | inr (old, e) ↦ elim (Bool-cases (matches_connect old packet)) [
    | inl m ↦
        let run = find_connect-accepted state old packet e m in
        let same : learn old packet ≡ socket =
          some-injective (learn old packet) socket
            (sym (ap (λ (r : Option Socket × State). r.0) run) ∙ h) in
        rw⁻¹ (same) (
          find_socket-known (find_connect_for_live_packet state packet).1 (learn old packet) packet
            Direction.outbound (ap (λ (r : Option Socket × State). r.1.socket_under_test) run)
            (match_live-learn old packet m apart))
    | inr m ↦ absurd (none-ne-some socket (sym (find_connect-refused state old packet e m) ∙ h))
  ]
]

-- What handle_connect_for_script_packet returns.
handle_connect_lem :
    (config : Config) (state : State) (packet : PacketView) (tcp : TcpView) (socket : Socket)
    → (handle_connect_for_script_packet config state packet tcp Direction.outbound).0 ≡ some socket
    → ((handle_connect_for_script_packet config state packet tcp
          Direction.outbound).1.socket_under_test
        ≡ some socket)
      × (socket.phase ≡ SocketPhase.active_syn_sent)
      × (socket.script.local_isn ≡ tcp.seq)
unfolding handle_connect_for_script_packet
handle_connect_lem config state packet tcp socket h = ground arith

-- The live packet that a connecting TCP socket sends to the place it is connected to is matched.
matches_connect-syn :
    (socket : Socket) (packet : PacketView) (tcp : TcpView)
    → socket.phase ≡ SocketPhase.active_syn_sent
    → socket.protocol ≡ 6
    → packet.tcp ≡ some tcp
    → tcp.syn ≡ true
    → tcp.ack ≡ false
    → packet.tuple.dst ≡ socket.live.remote
    → matches_connect socket packet ≡ true
unfolding matches_connect
matches_connect-syn socket packet tcp ep e6 et es ea ed =
    let ip : packet.tuple.dst.ip ≡ socket.live.remote.ip = ap (λ (x : Endpoint). x.ip) ed in
    let port : packet.tuple.dst.port ≡ socket.live.remote.port = ap (λ (x : Endpoint). x.port) ed in
    ground arith

-- A SYN of the script that handle_connect_for_script_packet takes for that of a TCP socket, and then the
-- SYN that the stack sends to the remote end: find_connect_for_live_packet matches it, and the
-- socket's offset from live to script maps its sequence number to that of the script.
pub connect_maps_syn :
    (config : Config) (state : State) (script_packet live_packet : PacketView)
    (script_tcp live_tcp : TcpView) (socket : Socket)
    → (handle_connect_for_script_packet config state script_packet script_tcp Direction.outbound).0
      ≡ some socket
    → socket.protocol ≡ 6
    → live_packet.tcp ≡ some live_tcp
    → live_tcp.syn ≡ true
    → live_tcp.ack ≡ false
    → live_packet.tuple.dst ≡ socket.live.remote
    → IsU32 script_tcp.seq
    → IsU32 live_tcp.seq
    → let after =
        (handle_connect_for_script_packet config state script_packet script_tcp
          Direction.outbound).1 in
      (found : Socket) × ((find_connect_for_live_packet after live_packet).0 ≡ some found)
      × (add32 live_tcp.seq (local_seq_live_to_script_offset found true) ≡ script_tcp.seq)
unfolding local_seq_live_to_script_offset local_seq_script_to_live_offset learn
connect_maps_syn config state script_packet live_packet script_tcp live_tcp socket h e6 et es ea ed
      u v =
    let (under, phase, isn) = handle_connect_lem config state script_packet script_tcp socket h in
    let after =
      (handle_connect_for_script_packet config state script_packet script_tcp
        Direction.outbound).1 in
    let matched = matches_connect-syn socket live_packet live_tcp phase e6 et es ea ed in
    (
      learn socket live_packet,
      ap (λ (r : Option Socket × State). r.0)
          (find_connect-accepted after socket live_packet under matched),
      rw (et) (omega arith),
    )
