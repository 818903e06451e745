-- ===== src/Socket/Diagram.antt =====
-- The steps that the state of the socket under test can take, and the functions that find the socket
-- for a packet of the script.
use tcp_fuzz.Prelude.{ℕ, Option, none, some, ◌≡◌, refl, arith}
use tcp_fuzz.Prelude.{Option-cases, inl, inr}
use tcp_fuzz.Packet.{Direction}
use tcp_fuzz.Socket.{SocketPhase, Socket}
use tcp_fuzz.Socket.Runner.{
  TcpView, PacketView, Config, State, handle_listen_for_script_packet,
  handle_connect_for_script_packet,
}
use tcp_fuzz.Socket.Find.{
  PacketInfo, packet_view, Lookup, find_socket, find_tcp_socket, foreign_port,
  find_or_create_socket_for_script_packet, is_script_packet_match_for_socket,
}
use tcp_fuzz.Socket.Inbound.{inbound_phase, fill_anyip, inbound_live_packet}
use tcp_fuzz.Socket.Outbound.{injected}

unfoldable pub phase_of : State → Option SocketPhase
phase_of state = elim state.socket_under_test [ none ↦ none | some socket ↦ some socket.phase ]

-- A step of the diagram; `none` is no socket.
infix 40 ◌⟶◌ ◌⟶*◌
pub data ◌⟶◌ : Option SocketPhase → Option SocketPhase → Type 0 where
  first_packet : none ⟶ some SocketPhase.passive_packet_received
  child : some SocketPhase.passive_listening ⟶ some SocketPhase.passive_packet_received
  synack : some SocketPhase.passive_packet_received ⟶ some SocketPhase.passive_synack_sent
  ack : some SocketPhase.passive_synack_sent ⟶ some SocketPhase.passive_synack_acked
  first_syn : none ⟶ some SocketPhase.active_syn_sent
  syn : some SocketPhase.active_connecting ⟶ some SocketPhase.active_syn_sent
  answer : some SocketPhase.active_syn_sent ⟶ some SocketPhase.active_syn_acked

pub data ◌⟶*◌ : Option SocketPhase → Option SocketPhase → Type 0 where
  here : {p : Option SocketPhase} → p ⟶* p
  then : {p q r : Option SocketPhase} → p ⟶ q → q ⟶* r → p ⟶* r

pub ⟶*-trans : (p q r : Option SocketPhase) → p ⟶* q → q ⟶* r → p ⟶* r
⟶*-trans p q r here k = k
⟶*-trans p q r (then {q = m} step rest) k = then step (⟶*-trans m q r rest k)

pub ⟶*-of_eq : (p q : Option SocketPhase) → p ≡ q → p ⟶* q
⟶*-of_eq p q e = rw⁻¹ (e) here

pub one : {p q : Option SocketPhase} → p ⟶ q → p ⟶* q
one step = then step here

pub phase-known :
    (state : State) (socket : Socket)
    → state.socket_under_test ≡ some socket
    → phase_of state ≡ some socket.phase
unfolding phase_of
phase-known state socket e = rw (e) refl

phase-unknown : (state : State) → state.socket_under_test ≡ none → phase_of state ≡ none
unfolding phase_of
phase-unknown state e = rw (e) refl

-- A socket was found for a packet of the script, and is the one under test afterwards.
abbrev Reaches : State → Socket → State → Type 0
Reaches state socket state' =
    (state'.socket_under_test ≡ some socket) × (phase_of state ⟶* some socket.phase)

pub ruleset edges = (first_packet, child, synack, ack, first_syn, syn, answer, here, one)

listen-Reaches :
    (config : Config) (port : ℕ) (state : State) (packet : PacketView) (tcp : TcpView)
    (direction : Direction) (socket : Socket)
    → (handle_listen_for_script_packet config port state packet tcp direction).0 ≡ some socket
    → Reaches state socket
        (handle_listen_for_script_packet config port state packet tcp direction).1
unfolding handle_listen_for_script_packet phase_of
listen-Reaches config port state packet tcp direction socket h = grind (arith, edges)

connect-Reaches :
    (config : Config) (state : State) (packet : PacketView) (tcp : TcpView) (direction : Direction)
    (socket : Socket)
    → (handle_connect_for_script_packet config state packet tcp direction).0 ≡ some socket
    → Reaches state socket (handle_connect_for_script_packet config state packet tcp direction).1
unfolding handle_connect_for_script_packet phase_of
connect-Reaches config state packet tcp direction socket h = grind (arith, edges)

inbound-⟶* :
    (socket : Socket) (tcp : Option TcpView)
    → some socket.phase ⟶* some (inbound_phase socket tcp).phase
unfolding inbound_phase
inbound-⟶* socket tcp = grind (arith, edges)

find_socket-known :
    (state : State) (packet : PacketView) (socket : Socket)
    → find_socket state packet ≡ some (Lookup.found (some socket))
    → state.socket_under_test ≡ some socket
unfolding find_socket foreign_port is_script_packet_match_for_socket
find_socket-known state packet socket h = ground arith

known-Reaches :
    (state : State) (socket : Socket)
    → state.socket_under_test ≡ some socket
    → Reaches state socket state
known-Reaches state socket e =
    (e, ⟶*-of_eq (phase_of state) (some socket.phase) (phase-known state socket e))

find_tcp_socket-Reaches :
    (config : Config) (port : ℕ) (state : State) (packet : PacketView) (tcp : TcpView)
    (direction : Direction) (socket : Socket) (state' : State)
    → find_tcp_socket config port state packet tcp direction
      ≡ some (Lookup.found (some socket), state')
    → Reaches state socket state'
unfolding find_tcp_socket
find_tcp_socket-Reaches config port state packet tcp direction socket state' h = ground (
  arith,
  listen-Reaches config port state packet tcp direction socket,
  connect-Reaches config state packet tcp direction socket,
  find_socket-known state packet socket,
  known-Reaches state socket,
)

pub find-Reaches :
    (config : Config) (port : ℕ) (state : State) (packet : PacketView) (direction : Direction)
    (socket : Socket) (state' : State)
    → find_or_create_socket_for_script_packet config port state packet direction
      ≡ some (Lookup.found (some socket), state')
    → Reaches state socket state'
unfolding find_or_create_socket_for_script_packet
find-Reaches config port state packet direction socket state' h = elim (Option-cases packet.tcp) [
  | inl e ↦ ground (arith, find_socket-known state packet socket, known-Reaches state socket)
  | inr (tcp, e) ↦
      find_tcp_socket-Reaches config port state packet tcp direction socket state'
        (rw (e, find_or_create_socket_for_script_packet) at h)
]

pub do_inbound-⟶* :
    (config : Config) (socket : Socket) (packet : PacketInfo) (socket' : Socket)
    (injected : PacketInfo)
    → inbound_live_packet config socket packet ≡ some (socket', injected)
    → some socket.phase ⟶* some socket'.phase
unfolding inbound_live_packet fill_anyip
do_inbound-⟶* config socket packet socket' injected h =
    grind (arith, edges, inbound-⟶* socket (packet_view packet).tcp)
