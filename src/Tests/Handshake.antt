-- ===== src/Tests/Handshake.antt =====
-- Tests of a passive connection: a SYN, the SYNACK of the stack behind a packet of another connection, and
-- the ACK, and the numbers of the RST for it.
use tcp_fuzz.Prelude.{ℕ, ◌≡◌, refl, true, false, some, none, [], ◌∷◌}
use tcp_fuzz.Packet.{Direction}
use tcp_fuzz.Verify.{TosCheck, TcpHeader, HeaderFields, no_tcp_header, find_tcp}
use tcp_fuzz.Socket.{
  SocketPhase, Endpoint, Socket, socket_get_inbound, map_inbound_sequence, remap, offset_blocks,
}
use tcp_fuzz.Socket.{remote_seq_script_to_live_offset, local_seq_script_to_live_offset}
use tcp_fuzz.Socket.Runner.{
  Config, State, socket_new, next_ephemeral_port, handle_listen_for_script_packet,
}
use tcp_fuzz.Socket.Find.{
  PacketInfo, packet_view, find_tcp_socket, find_or_create_socket_for_script_packet,
}
use tcp_fuzz.Socket.Inbound.{inbound_phase, fill_anyip, map_inbound_packet, update_tcp}
use tcp_fuzz.Socket.Outbound.{do_inbound_script_packet}
use tcp_fuzz.Socket.Outbound.{Ran, run_for_socket, run_packet_event}
use tcp_fuzz.Verify.{Ipv4Header}
use tcp_fuzz.Socket.Inbound.{inbound_live_packet, fill_payload}
use tcp_fuzz.Tests.Given.{outside}
use tcp_fuzz.Socket.Diagram.{phase_of, ◌⟶*◌}
use tcp_fuzz.Socket.Phases.{run_packet_event_phases}
use tcp_fuzz.Socket.Sniffing.{under}
use tcp_fuzz.Socket.Reset.{reset_numbers, next_numbers, reset_numbers-injected}

abbrev config : Config
config = record {
  is_wire_server = false;
  is_anyip = false;
  strict_segments = true;
  checker = true;
  non_fatal_packet = false;
  live_remote_ip = 20;
  live_local_ip = 10;
  live_bind_port = 8080;
  live_connect_port = 80;
  outside = outside;
}

abbrev here : Endpoint
here = record { ip = 10; port = 8080 }

abbrev there : Endpoint
there = record { ip = 20; port = 5000 }

abbrev elsewhere : Endpoint
elsewhere = record { ip = 30; port = 7 }

abbrev ip_header : Ipv4Header
ip_header = record { version = 4; protocol = 6; ihl = 5; tot_len = 40; tos = 0; ttl = 64 }

abbrev tcp_packet : Endpoint → Endpoint → TcpHeader → PacketInfo
tcp_packet src dst header = record {
  tuple = record { src = src; dst = dst };
  ip_protocol = 6;
  fields = record {
    headers = HeaderFields.ipv4 ip_header ∷ HeaderFields.tcp header ∷ [];
    payload_len = 0;
    options_nocheck = false;
    win_nocheck = false;
    tos_chk = TosCheck.check_none;
  };
}

abbrev header : ℕ → ℕ → ℕ → TcpHeader
header seq syn ack = record no_tcp_header { seq = seq; doff = 5; syn = syn; ack = ack }

abbrev nothing : State
nothing = record { socket_under_test = none; next_ephemeral_port = some 5000 }

abbrev script_syn : PacketInfo
script_syn =
    tcp_packet (record { ip = 1; port = 40 }) (record { ip = 2; port = 50 }) (header 100 1 0)

-- The socket that the SYN of the script creates.
abbrev received : Socket
received = record socket_new {
  phase = SocketPhase.passive_packet_received;
  protocol = 6;
  script = record {
    local = record { ip = 2; port = 50 };
    local_isn = 0;
    remote = record { ip = 1; port = 40 };
    remote_isn = 100;
  };
  live = record { local = here; local_isn = 0; remote = there; remote_isn = 100 };
  last_injected_tcp_header = header 100 1 0;
}

syn_received :
    run_packet_event config 6000 nothing script_syn Direction.inbound []
    ≡ some (Ran.passed (under received none))
unfolding run_packet_event find_or_create_socket_for_script_packet packet_view find_tcp
    find_tcp_socket handle_listen_for_script_packet next_ephemeral_port run_for_socket
    do_inbound_script_packet inbound_live_packet fill_payload inbound_phase fill_anyip
    map_inbound_packet update_tcp map_inbound_sequence remap offset_blocks socket_get_inbound
    remote_seq_script_to_live_offset local_seq_script_to_live_offset
syn_received = refl

run_packet_event_phases_example : phase_of nothing ⟶* phase_of (under received none)
run_packet_event_phases_example =
    run_packet_event_phases config 6000 nothing script_syn Direction.inbound []
      (under received none) syn_received

abbrev synack : PacketInfo
synack = tcp_packet (record { ip = 2; port = 50 }) (record { ip = 1; port = 40 }) (header 0 1 1)

abbrev live : PacketInfo
live = tcp_packet here there (header 7777 1 1)

abbrev noise : PacketInfo
noise = tcp_packet elsewhere there (header 5 0 1)

abbrev ack : PacketInfo
ack = tcp_packet (record { ip = 1; port = 40 }) (record { ip = 2; port = 50 }) (header 101 0 1)

header_of :
    (src dst : Endpoint) (h : TcpHeader) → find_tcp (tcp_packet src dst h).fields.headers ≡ some h
unfolding find_tcp
header_of src dst h = refl

-- The stack has chosen 7777; the ACK of the script becomes 201, acknowledging 7777.
abbrev sent_synack : Socket
sent_synack = record received { live = record received.live { local_isn = 7777 } }

abbrev live_ack : TcpHeader
live_ack = record (header 201 0 1) { ack_seq = 7777 }

abbrev after_ack : Socket
after_ack = record sent_synack { last_injected_tcp_header = live_ack }

abbrev injected_ack : PacketInfo
injected_ack = tcp_packet (record { ip = 20; port = 40 }) (record { ip = 10; port = 50 }) live_ack

ack_injected : inbound_live_packet config sent_synack ack ≡ some (after_ack, injected_ack)
unfolding inbound_live_packet fill_payload inbound_phase fill_anyip map_inbound_packet update_tcp
    map_inbound_sequence remap offset_blocks socket_get_inbound remote_seq_script_to_live_offset
    local_seq_script_to_live_offset packet_view find_tcp
ack_injected = refl

reset_numbers-injected_example : reset_numbers after_ack ≡ next_numbers after_ack (header 101 0 1) 0
reset_numbers-injected_example =
    reset_numbers-injected config sent_synack after_ack ack injected_ack (header 101 0 1)
      (header_of ack.tuple.src ack.tuple.dst (header 101 0 1)) refl refl ack_injected

rst_numbers : reset_numbers after_ack ≡ (201, 7777, 0)
unfolding reset_numbers
rst_numbers = refl
