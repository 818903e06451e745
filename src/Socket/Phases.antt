-- ===== src/Socket/Phases.antt =====
-- The states that the socket under test goes through as packets of the script are run.
use tcp_fuzz.Prelude.{ℕ, ◌&&◌, ◌==◌, not, Option, none, some, List, [], ◌≡◌, refl, sym, ap, arith}
use tcp_fuzz.Prelude.{Bool-cases, inl, inr}
use tcp_fuzz.Packet.{Direction}
use tcp_fuzz.Socket.{SocketPhase, Socket}
use tcp_fuzz.Socket.Runner.{TcpView, Config, State}
use tcp_fuzz.Socket.Find.{PacketInfo, packet_view, Lookup, find_or_create_socket_for_script_packet}
use tcp_fuzz.Socket.Inbound.{inbound_live_packet}
use tcp_fuzz.Socket.Verification.{Verdict}
use tcp_fuzz.Socket.Outbound.{
  verified, report, verify_sniffed, aggregated, do_inbound_script_packet, script_synack,
  check_payload, injected, run_found, Sniffed, Collected, collect, do_outbound_script_packet, Ran,
  run_for_socket, run_packet_event,
}
use tcp_fuzz.Socket.Diagram.{phase_of, ◌⟶*◌, ⟶*-trans, ⟶*-of_eq, find-Reaches, do_inbound-⟶*}
use tcp_fuzz.Socket.Loop.{Leaves, Leaves-trans, collect-Leaves}

script_synack-phase :
    (socket : Socket) (tcp : Option TcpView) → (script_synack socket tcp).phase ≡ socket.phase
unfolding script_synack
script_synack-phase socket tcp = ground arith

-- What an event leaves.
RanFrom : Option SocketPhase → Option Ran → Type 0
RanFrom before none = Unit {0}
RanFrom before (some Ran.failed) = Unit {0}
RanFrom before (some (Ran.warned state)) = before ⟶* phase_of state
RanFrom before (some (Ran.passed state)) = before ⟶* phase_of state

report-RanFrom :
    (before : Option SocketPhase) (state : State) (verdict : Option Verdict)
    → before ⟶* phase_of state
    → RanFrom before (report state verdict)
unfolding RanFrom
report-RanFrom before state none h = tt
report-RanFrom before state (some Verdict.err) h = tt
report-RanFrom before state (some Verdict.warn) h = h
report-RanFrom before state (some Verdict.ok) h = h

verified-RanFrom :
    (config : Config) (packet : PacketInfo) (before : Option SocketPhase)
    (outcome : Option Collected)
    → Leaves before outcome
    → RanFrom before
        (verified config packet (check_payload config packet.fields.payload_len outcome))
unfolding Leaves RanFrom
verified-RanFrom config packet before none h = tt
verified-RanFrom config packet before (some Collected.err) h = tt
verified-RanFrom config packet before (some (Collected.ok state sniffed)) h =
    elim (Bool-cases (not (sniffed.payload_len == packet.fields.payload_len) && config.checker)) [
      | inl e ↦ rw (e) tt
      | inr e ↦ rw (e) (
          report-RanFrom before state
            (verify_sniffed config packet state.socket_under_test
              (aggregated config sniffed.packets))
            h)
    ]

injected-RanFrom :
    (config : Config) (before : Option SocketPhase) (state : State)
    (result : Option (Socket × PacketInfo))
    → ((socket : Socket) (packet : PacketInfo)
        → result ≡ some (socket, packet)
        → before ⟶* some socket.phase)
    → RanFrom before (injected config state result)
unfolding RanFrom phase_of
injected-RanFrom config before state none h = tt
injected-RanFrom config before state (some (socket, packet)) h =
    elim (Bool-cases
      (config.outside.read_options packet.fields && config.outside.netdev_send packet.fields)) [
        | inl e ↦ rw (e) (h socket packet refl)
        | inr e ↦ rw (e) tt
      ]

do_outbound-RanFrom :
    (config : Config) (packet : PacketInfo) (socket : Socket) (state : State)
    (arrivals : List PacketInfo)
    → RanFrom (some socket.phase) (do_outbound_script_packet config packet socket state arrivals)
unfolding do_outbound_script_packet phase_of
do_outbound-RanFrom config packet socket state arrivals =
    let tcp = (packet_view packet).tcp in
    let state' = record state { socket_under_test = some (script_synack socket tcp) } in
    let none_yet : Sniffed = record { packets = []; payload_len = 0 } in
    let outcome = collect config packet state' none_yet arrivals in
    verified-RanFrom config packet (some socket.phase) outcome (
      Leaves-trans (some socket.phase) (some (script_synack socket tcp).phase) outcome
        (⟶*-of_eq (some socket.phase) (some (script_synack socket tcp).phase)
          (ap some (sym (script_synack-phase socket tcp))))
        (collect-Leaves config packet state' none_yet arrivals))

run_for_socket-RanFrom :
    (config : Config) (state : State) (packet : PacketInfo) (direction : Direction)
    (arrivals : List PacketInfo) (socket : Socket)
    → RanFrom (some socket.phase) (run_for_socket config state packet direction arrivals socket)
unfolding run_for_socket RanFrom do_inbound_script_packet
run_for_socket-RanFrom config state packet Direction.outbound arrivals socket =
    do_outbound-RanFrom config packet socket state arrivals
run_for_socket-RanFrom config state packet Direction.inbound arrivals socket =
    injected-RanFrom config (some socket.phase) state (inbound_live_packet config socket packet)
      (do_inbound-⟶* config socket packet)
run_for_socket-RanFrom config state packet _ arrivals socket = tt

RanFrom-trans :
    (p q : Option SocketPhase) (result : Option Ran) → p ⟶* q → RanFrom q result → RanFrom p result
unfolding RanFrom
RanFrom-trans p q none h k = tt
RanFrom-trans p q (some Ran.failed) h k = tt
RanFrom-trans p q (some (Ran.warned state)) h k = ⟶*-trans p q (phase_of state) h k
RanFrom-trans p q (some (Ran.passed state)) h k = ⟶*-trans p q (phase_of state) h k

run_found-RanFrom :
    (before : Option SocketPhase) (run : State → Socket → Option Ran)
    (lookup : Option (Lookup × State))
    → ((state : State) (socket : Socket) → RanFrom (some socket.phase) (run state socket))
    → ((socket : Socket) (state : State)
        → lookup ≡ some (Lookup.found (some socket), state)
        → before ⟶* some socket.phase)
    → RanFrom before (run_found run lookup)
unfolding RanFrom
run_found-RanFrom before run none h k = tt
run_found-RanFrom before run (some (Lookup.no_socket, state)) h k = tt
run_found-RanFrom before run (some (Lookup.found none, state)) h k = tt
run_found-RanFrom before run (some (Lookup.found (some socket), state)) h k =
    RanFrom-trans before (some socket.phase) (run state socket) (k socket state refl)
      (h state socket)

run_packet_event-RanFrom :
    (config : Config) (port : ℕ) (state : State) (packet : PacketInfo) (direction : Direction)
    (arrivals : List PacketInfo)
    → RanFrom (phase_of state) (run_packet_event config port state packet direction arrivals)
unfolding run_packet_event
run_packet_event-RanFrom config port state packet direction arrivals =
    run_found-RanFrom (phase_of state)
      (λ state' socket. run_for_socket config state' packet direction arrivals socket)
      (find_or_create_socket_for_script_packet config port state (packet_view packet) direction)
      (λ state' socket. run_for_socket-RanFrom config state' packet direction arrivals socket)
      (λ socket state' e.
        (find-Reaches config port state (packet_view packet) direction socket state' e).1)

-- Whatever a packet of the script is, in either direction, and whatever packets the stack sends: a
-- run_packet_event that succeeds takes the socket under test along the steps of the diagram.
pub run_packet_event_phases :
    (config : Config) (port : ℕ) (state : State) (packet : PacketInfo) (direction : Direction)
    (arrivals : List PacketInfo) (state' : State)
    → run_packet_event config port state packet direction arrivals ≡ some (Ran.passed state')
    → phase_of state ⟶* phase_of state'
unfolding RanFrom
run_packet_event_phases config port state packet direction arrivals state' h =
    rw (h) at (run_packet_event-RanFrom config port state packet direction arrivals)
