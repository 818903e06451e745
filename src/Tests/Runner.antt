-- ===== src/Tests/Runner.antt =====
-- Tests of the packet runner: a connecting socket and its first packets.
use tcp_fuzz.Prelude.{ℕ, ◌≡◌, refl, arith, true, false, none, some, add32}
use tcp_fuzz.Packet.{Direction}
use tcp_fuzz.Socket.{SocketPhase, Endpoint, Socket, local_seq_live_to_script_offset}
use tcp_fuzz.Tests.Given.{outside}
use tcp_fuzz.Socket.Runner.{TcpView, PacketView, Config, State, find_socket_for_live_packet, learn}
use tcp_fuzz.Socket.Runner.{find_connect_for_live_packet, handle_connect_for_script_packet}
use tcp_fuzz.Socket.Runner.{handle_listen_for_script_packet, next_ephemeral_port, matches_connect}
use tcp_fuzz.Socket.Runner.{socket_new}
use tcp_fuzz.Socket.Learn.{find_connect-find_socket, connect_maps_syn}

abbrev unset : Endpoint
unset = record { ip = 0; port = 0 }

abbrev client : Endpoint
client = record { ip = 10; port = 4242 }

abbrev server : Endpoint
server = record { ip = 20; port = 80 }

-- After connect(), before any packet.
abbrev connecting : Socket
connecting = record socket_new {
  phase = SocketPhase.active_connecting;
  protocol = 6;
  script = record { local = unset; local_isn = 0; remote = unset; remote_isn = 0 };
  live = record { local = unset; local_isn = 0; remote = server; remote_isn = 0 };
}

abbrev config : Config
config = record {
  is_wire_server = false;
  is_anyip = false;
  strict_segments = true;
  checker = true;
  non_fatal_packet = false;
  live_remote_ip = 20;
  live_local_ip = 10;
  live_bind_port = 8080;
  live_connect_port = 80;
  outside = outside;
}

abbrev state : State
state = record { socket_under_test = some connecting; next_ephemeral_port = some 5000 }

abbrev syn : ℕ → TcpView
syn seq = record { seq = seq; syn = true; ack = false }

abbrev packet : ℕ → PacketView
packet seq = record {
  tuple = record { src = client; dst = server };
  ip_protocol = 6;
  tcp = some (syn seq);
  udp = false;
  icmpv4 = false;
  icmpv6 = false;
}

abbrev sent : Socket
sent = record connecting {
  phase = SocketPhase.active_syn_sent;
  script = record { local = client; local_isn = 3; remote = server; remote_isn = 0 };
}

script_syn :
    (handle_connect_for_script_packet config state (packet 3) (syn 3) Direction.outbound).0
    ≡ some sent
unfolding handle_connect_for_script_packet
script_syn = refl

-- A socket that is not listening takes no inbound SYN.
not_listening :
    (handle_listen_for_script_packet config 6000 state (packet 3) (syn 3) Direction.inbound).0
    ≡ none
unfolding handle_listen_for_script_packet
not_listening = refl

-- The port that was kept is used, and no longer kept.
kept_port : next_ephemeral_port 6000 state ≡ (5000, record state { next_ephemeral_port = none })
unfolding next_ephemeral_port
kept_port = refl

abbrev sent_state : State
sent_state = record state { socket_under_test = some sent }

find_connect-find_socket_example :
    find_socket_for_live_packet
      (find_connect_for_live_packet sent_state (packet 900)).1
      (packet 900)
    ≡ some (learn sent (packet 900), Direction.outbound)
unfolding find_connect_for_live_packet learn matches_connect
find_connect-find_socket_example =
    find_connect-find_socket sent_state (packet 900) (learn sent (packet 900)) refl (omega arith)

connect_maps_syn_example :
    (found : Socket) × ((find_connect_for_live_packet sent_state (packet 900)).0 ≡ some found)
    × (add32 900 (local_seq_live_to_script_offset found true) ≡ 3)
unfolding handle_connect_for_script_packet
connect_maps_syn_example =
    connect_maps_syn config state (packet 3) (packet 900) (syn 3) (syn 900) sent script_syn refl
      refl refl refl refl (omega arith) (omega arith)
