-- ===== src/Socket/Loop.antt =====
-- The states of the socket under test while the packets of the stack are sniffed.
use tcp_fuzz.Prelude.{ℕ, Option, none, some, List, [], ◌∷◌, ◌≡◌, refl, ap, ◌∙◌, arith}
use tcp_fuzz.Prelude.{Option-cases, Bool-cases, inl, inr}
use mathlib.Core.Option.{some-injective, none-ne-some}
use tcp_fuzz.Packet.{Direction}
use tcp_fuzz.Verify.{TcpHeader, find_tcp}
use tcp_fuzz.Socket.{SocketPhase, Socket}
use tcp_fuzz.Socket.Runner.{
  TcpView, PacketView, Config, State, find_socket_for_live_packet, find_connect_for_live_packet,
  match_live, learn,
}
use tcp_fuzz.Socket.Find.{PacketInfo, packet_view}
use tcp_fuzz.Prelude.{Bool, true, false, if◌then◌else◌}
use tcp_fuzz.Socket.Outbound.{is_unreadable}
use tcp_fuzz.Socket.Outbound.{
  sniff, known_or_connecting, progress, wants_more, take_noted, after_packet, live_synack, convert,
  Sniffed, append, Progress, take_packet, Collected, collect,
}
use tcp_fuzz.Socket.Diagram.{edges, phase_of, ◌⟶*◌, ⟶*-trans, phase-known}

live_synack-⟶* :
    (socket : Socket) (tcp : Option TcpView) (live : Option TcpHeader) (socket' : Socket)
    → live_synack socket tcp live ≡ some socket'
    → some socket.phase ⟶* some socket'.phase
unfolding live_synack
live_synack-⟶* socket tcp live socket' h = grind (arith, edges)

find_live-known :
    (state : State) (live : PacketView) (socket : Socket) (direction : Direction)
    → find_socket_for_live_packet state live ≡ some (socket, direction)
    → state.socket_under_test ≡ some socket
unfolding find_socket_for_live_packet
find_live-known state live socket direction h = elim (Option-cases state.socket_under_test) [
  | inl e ↦ absurd (none-ne-some (socket, direction) (rw (e, find_socket_for_live_packet) at h))
  | inr (old, e) ↦ elim (Option-cases (match_live old live)) [
    | inl m ↦
        absurd (none-ne-some (socket, direction) (rw (e, m, find_socket_for_live_packet) at h))
    | inr (found, m) ↦
        let same =
          some-injective (old, found) (socket, direction)
            (rw (e, m, find_socket_for_live_packet) at h) in
        e ∙ ap some (ap (λ (p : Socket × Direction). p.0) same)
  ]
]

find_live-phase :
    (state : State) (live : PacketView) (socket : Socket) (direction : Direction)
    → find_socket_for_live_packet state live ≡ some (socket, direction)
    → (state.socket_under_test ≡ some socket) × (phase_of state ≡ some socket.phase)
find_live-phase state live socket direction h =
    let known = find_live-known state live socket direction h in
    (known, phase-known state socket known)

find_connect-phase :
    (state : State) (live : PacketView) (socket : Socket)
    → (find_connect_for_live_packet state live).0 ≡ some socket
    → ((find_connect_for_live_packet state live).1.socket_under_test ≡ some socket)
      × (phase_of state ≡ some socket.phase)
unfolding find_connect_for_live_packet learn phase_of
find_connect-phase state live socket h = ground arith

-- What was found, if anything, is under test in the state.
Sniffs : State → Option (Socket × State) → Type 0
Sniffs state none = Unit {0}
Sniffs state (some (socket, state')) =
    (state'.socket_under_test ≡ some socket) × (phase_of state ≡ some socket.phase)

choice-Sniffs :
    (state : State) (known : Option (Socket × Direction)) (other : Option Socket × State)
    → ((socket : Socket) (direction : Direction)
        → known ≡ some (socket, direction)
        → (state.socket_under_test ≡ some socket) × (phase_of state ≡ some socket.phase))
    → ((socket : Socket)
        → other.0 ≡ some socket
        → (other.1.socket_under_test ≡ some socket) × (phase_of state ≡ some socket.phase))
    → Sniffs state (known_or_connecting state known other)
unfolding Sniffs
choice-Sniffs state (some (socket, Direction.outbound)) other h k = h socket Direction.outbound refl
choice-Sniffs state none (none, state') h k = tt
choice-Sniffs state none (some socket, state') h k = k socket refl
choice-Sniffs state (some (socket, _)) (none, state') h k = tt
choice-Sniffs state (some (known, _)) (some socket, state') h k = k socket refl

sniff-Sniffs : (state : State) (live : PacketView) → Sniffs state (sniff state live)
unfolding sniff
sniff-Sniffs state live =
    choice-Sniffs state (find_socket_for_live_packet state live)
      (find_connect_for_live_packet state live) (find_live-phase state live)
      (find_connect-phase state live)

convert-phase : (socket : Socket) (live : PacketInfo) → (convert socket live).0.phase ≡ socket.phase
unfolding convert
convert-phase socket live = ground arith

-- The state in which a packet leaves the loop, by the way it does.
Goes : Option SocketPhase → Option Progress → Type 0
Goes before none = Unit {0}
Goes before (some Progress.stop) = Unit {0}
Goes before (some (Progress.more state sniffed)) = before ⟶* phase_of state
Goes before (some (Progress.finish state sniffed)) = before ⟶* phase_of state

progress-Goes :
    (config : Config) (expected : ℕ) (state : State) (sniffed : Option (Option Sniffed))
    (before : Option SocketPhase)
    → before ⟶* phase_of state
    → Goes before (progress config expected state sniffed)
unfolding Goes
progress-Goes config expected state none before h = tt
progress-Goes config expected state (some none) before h = tt
progress-Goes config expected state (some (some sniffed)) before h =
    elim (Bool-cases (wants_more config expected sniffed)) [ inl e ↦ rw (e) h | inr e ↦ rw (e) h ]

take_noted-Goes :
    (config : Config) (expected : ℕ) (state : State) (sniffed : Sniffed) (noted : Option Socket)
    (live : PacketInfo) (before : SocketPhase)
    → ((socket : Socket) → noted ≡ some socket → some before ⟶* some socket.phase)
    → Goes (some before) (take_noted config expected state sniffed noted (λ s. convert s live))
unfolding take_noted Goes phase_of
take_noted-Goes config expected state sniffed none live before h = tt
take_noted-Goes config expected state sniffed (some noted) live before h =
    progress-Goes config expected (record state { socket_under_test = some (convert noted live).0 })
      (append expected sniffed (convert noted live).1) (some before)
      (rw (convert-phase noted live) (h noted refl))

unless-Goes :
    (before : Option SocketPhase) (b : Bool) (progress : Option Progress)
    → Goes before progress
    → Goes before (if b then some Progress.stop else progress)
unfolding Goes
unless-Goes before true progress h = tt
unless-Goes before false progress h = h

take_packet-Goes :
    (config : Config) (script_packet : PacketInfo) (socket : Socket) (state : State)
    (sniffed : Sniffed) (live : PacketInfo)
    → Goes (some socket.phase) (take_packet config script_packet socket state sniffed live)
unfolding take_packet
take_packet-Goes config script_packet socket state sniffed live =
    let tcp = (packet_view script_packet).tcp in
    let noted = live_synack socket tcp (find_tcp live.fields.headers) in
    let expected = script_packet.fields.payload_len in
    unless-Goes (some socket.phase) (is_unreadable config live)
      (take_noted config expected state sniffed noted (λ s. convert s live))
      (take_noted-Goes config expected state sniffed noted live socket.phase
        (live_synack-⟶* socket tcp (find_tcp live.fields.headers)))

sniffed_phase :
    (state : State) (live : PacketView) (socket : Socket) (state' : State)
    → sniff state live ≡ some (socket, state')
    → (state'.socket_under_test ≡ some socket) × (phase_of state ≡ some socket.phase)
unfolding Sniffs
sniffed_phase state live socket state' e = rw (e) at (sniff-Sniffs state live)

-- The state that an outcome leaves.
unfoldable pub Leaves : Option SocketPhase → Option Collected → Type 0
Leaves before none = Unit {0}
Leaves before (some Collected.err) = Unit {0}
Leaves before (some (Collected.ok state sniffed)) = before ⟶* phase_of state

pub Leaves-trans :
    (p q : Option SocketPhase) (outcome : Option Collected)
    → p ⟶* q
    → Leaves q outcome
    → Leaves p outcome
unfolding Leaves
Leaves-trans p q none h k = tt
Leaves-trans p q (some Collected.err) h k = tt
Leaves-trans p q (some (Collected.ok state sniffed)) h k = ⟶*-trans p q (phase_of state) h k

-- One packet: `later` is the rest of the loop.
collect_step-Leaves :
    (before : Option SocketPhase) (progress : Option Progress)
    (later : State → Sniffed → Option Collected)
    → Goes before progress
    → ((state : State) (sniffed : Sniffed) → Leaves (phase_of state) (later state sniffed))
    → Leaves before (after_packet later progress)
unfolding Leaves Goes
collect_step-Leaves before none later h k = tt
collect_step-Leaves before (some Progress.stop) later h k = tt
collect_step-Leaves before (some (Progress.more state sniffed)) later h k =
    Leaves-trans before (phase_of state) (later state sniffed) h (k state sniffed)
collect_step-Leaves before (some (Progress.finish state sniffed)) later h k = h

err-Leaves : (before : Option SocketPhase) → Leaves before (some Collected.err)
unfolding Leaves
err-Leaves before = tt

pub collect-Leaves :
    (config : Config) (script_packet : PacketInfo) (state : State) (sniffed : Sniffed)
    (arrivals : List PacketInfo)
    → Leaves (phase_of state) (collect config script_packet state sniffed arrivals)
unfolding collect
collect-Leaves config script_packet state sniffed [] = err-Leaves (phase_of state)
collect-Leaves config script_packet state sniffed (live ∷ arrivals) =
    elim (Option-cases (sniff state (packet_view live))) [
      | inl e ↦ rw (e, collect) (collect-Leaves config script_packet state sniffed arrivals)
      | inr ((socket, state'), e) ↦
          let (under, same) = sniffed_phase state (packet_view live) socket state' e in
          rw (e, same, collect)
            (collect_step-Leaves (some socket.phase)
              (take_packet config script_packet socket state' sniffed live)
              (λ state'' sniffed'. collect config script_packet state'' sniffed' arrivals)
              (take_packet-Goes config script_packet socket state' sniffed live)
              (λ state'' sniffed'. collect-Leaves config script_packet state'' sniffed' arrivals))
    ]
