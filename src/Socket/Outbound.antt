-- ===== src/Socket/Outbound.antt =====
-- run_packet.c: do_outbound_script_packet on the packets that the network device delivers,
-- do_inbound_script_packet, and run_packet_event.
use tcp_fuzz.Prelude.{
  ℕ, ◌+◌, ◌==◌, ◌&&◌, ◌||◌, not, if◌then◌else◌, ltb, Bool, true, false, Option, none, some, List,
  [],
}
use tcp_fuzz.Prelude.{◌∷◌}
use tcp_fuzz.Packet.{Direction}
use tcp_fuzz.Verify.{TcpHeader, find_tcp}
use tcp_fuzz.Verify.Fragments.{verify_packet_fragments}
use tcp_fuzz.Socket.{SocketPhase, Socket, is_equal_tuple}
use tcp_fuzz.Socket.{tcp_convert_seq_number}
use tcp_fuzz.Socket.Runner.{
  TcpView, PacketView, Config, State, find_socket_for_live_packet, find_connect_for_live_packet,
}
use tcp_fuzz.Socket.Find.{PacketInfo, packet_view, Lookup, find_or_create_socket_for_script_packet}
use tcp_fuzz.Socket.Inbound.{
  is_synack, seq_of, update_tcp, sequence_fields, with_sequence, inbound_live_packet,
}
use tcp_fuzz.Socket.Verification.{Verdict, verify_outbound_live_packet}
use tcp_fuzz.Prelude.{map}
use tcp_fuzz.Socket.Runner.{has_tcp}

abbrev pub is_packet_received : SocketPhase → Bool
is_packet_received SocketPhase.passive_packet_received = true
is_packet_received _ = false

-- The socket sent its SYNACK, by the script.
abbrev pub sends_synack : Socket → Option TcpView → Bool
sends_synack socket tcp = is_packet_received socket.phase && is_synack tcp

unfoldable pub script_synack : Socket → Option TcpView → Socket
script_synack socket tcp =
    if sends_synack socket tcp
    then record socket { script = record socket.script { local_isn = seq_of tcp } }
    else socket

-- What is known of a packet, or else what it connects.
abbrev pub known_or_connecting :
    State → Option (Socket × Direction) → Option Socket × State → Option (Socket × State)
known_or_connecting state (some (socket, Direction.outbound)) other = some (socket, state)
known_or_connecting state known (none, state') = none
known_or_connecting state known (some socket, state') = some (socket, state')

-- One turn of the loop of sniff_outbound_live_packet: the socket and the state, if the packet is
-- an outbound one of the socket. There is one socket under test, so it is the expected one.
unfoldable pub sniff : State → PacketView → Option (Socket × State)
unfolding find_socket_for_live_packet find_connect_for_live_packet
sniff state live =
    known_or_connecting state (find_socket_for_live_packet state live)
      (find_connect_for_live_packet state live)

-- The SYNACK that the stack sent. `none` is a packet without a TCP header in its place, which is read
-- all the same.
unfoldable pub live_synack : Socket → Option TcpView → Option TcpHeader → Option Socket
live_synack socket tcp live =
    if sends_synack socket tcp
    then (elim live [
      | none ↦ none
      | some header ↦ some (record socket {
        phase = SocketPhase.passive_synack_sent;
        live = record socket.live { local_isn = header.seq };
      })
    ])
    else some socket

-- The header is remembered, and its sequence numbers are converted to those of the script.
unfoldable pub convert : Socket → PacketInfo → Socket × PacketInfo
unfolding find_tcp update_tcp tcp_convert_seq_number
convert socket live = elim (find_tcp live.fields.headers) [
  | none ↦ (socket, live)
  | some header ↦
      let socket' = record socket { last_outbound_tcp_header = header } in
      (
        socket',
        record live {
          fields = record live.fields {
            headers =
                update_tcp
                  (λ header.
                    with_sequence header (tcp_convert_seq_number socket' (sequence_fields header)))
                  live.fields.headers;
          };
        },
      )
]

-- What was sniffed up to now, the last packet first, and the length of its payload.
pub record Sniffed : Type 0 where
  pub packets : List PacketInfo
  pub payload_len : ℕ

abbrev pub alone : PacketInfo → Sniffed
alone live = record { packets = live ∷ []; payload_len = live.fields.payload_len }

-- `none` is a failed assert, `some none` is STATUS_ERR. Packets of another connection are dropped.
unfoldable pub append : ℕ → Sniffed → PacketInfo → Option (Option Sniffed)
unfolding verify_packet_fragments is_equal_tuple
append expected sniffed live = elim sniffed.packets [
  | [] ↦ some (some (alone live))
  | last ∷ earlier ↦
      if is_equal_tuple last.tuple live.tuple
      then (elim (verify_packet_fragments live.fields last.fields live.fields.payload_len
          sniffed.payload_len expected) [
            | none ↦ none
            | some false ↦ some none
            | some true ↦ some (
                some (record {
                  packets = live ∷ last ∷ earlier;
                  payload_len = sniffed.payload_len + live.fields.payload_len;
                }))
          ])
      else some (some (alone live))
]

-- Whether the loop goes on.
abbrev pub wants_more : Config → ℕ → Sniffed → Bool
wants_more config expected sniffed =
    ltb sniffed.payload_len expected && (not config.strict_segments || config.is_wire_server)

-- STATUS_ERR, or what was sniffed, and the state then.
pub data Collected : Type 0 where
  err : Collected
  ok : State → Sniffed → Collected

-- A packet that was sniffed for the socket: the state, what was sniffed with it, and whether to go on.
pub data Progress : Type 0 where
  stop : Progress
  more finish : State → Sniffed → Progress

abbrev pub progress : Config → ℕ → State → Option (Option Sniffed) → Option Progress
progress config expected state none = none
progress config expected state (some none) = some Progress.stop
progress config expected state (some (some sniffed)) =
    if wants_more config expected sniffed
    then some (Progress.more state sniffed)
    else some (Progress.finish state sniffed)

-- The packet of the socket, which has noted a SYNACK.
unfoldable pub take_noted :
    Config → ℕ → State → Sniffed → Option Socket → (Socket → Socket × PacketInfo) → Option Progress
unfolding append
take_noted config expected state sniffed none converted = none
take_noted config expected state sniffed (some noted) converted =
    let (socket, live) = converted noted in
    progress config expected (record state { socket_under_test = some socket })
      (append expected sniffed live)

-- tcp_convert_seq_number fails on the SACK blocks of the packet.
unfoldable pub is_unreadable : Config → PacketInfo → Bool
unfolding packet_view
is_unreadable config live =
    has_tcp (packet_view live).tcp && not (config.outside.read_options live.fields)

unfoldable pub take_packet :
    Config → PacketInfo → Socket → State → Sniffed → PacketInfo → Option Progress
unfolding live_synack convert take_noted find_tcp packet_view is_unreadable
take_packet config script_packet socket state sniffed live =
    if is_unreadable config live
    then some Progress.stop
    else take_noted config script_packet.fields.payload_len state sniffed
        (live_synack socket (packet_view script_packet).tcp (find_tcp live.fields.headers))
        (λ noted. convert noted live)

abbrev pub after_packet : (State → Sniffed → Option Collected) → Option Progress → Option Collected
after_packet later none = none
after_packet later (some Progress.stop) = some Collected.err
after_packet later (some (Progress.more state sniffed)) = later state sniffed
after_packet later (some (Progress.finish state sniffed)) = some (Collected.ok state sniffed)

-- The loop, on the packets of the network device, which fails when there are no more.
unfoldable pub collect : Config → PacketInfo → State → Sniffed → List PacketInfo → Option Collected
unfolding sniff take_packet packet_view
collect config script_packet state sniffed [] = some Collected.err
collect config script_packet state sniffed (live ∷ arrivals) =
    elim (sniff state (packet_view live)) [
      | none ↦ collect config script_packet state sniffed arrivals
      | some (socket, state') ↦
          after_packet (λ state'' sniffed'. collect config script_packet state'' sniffed' arrivals)
            (take_packet config script_packet socket state' sniffed live)
    ]

-- The test of the length behind the loop.
abbrev pub check_payload : Config → ℕ → Option Collected → Option Collected
check_payload config expected none = none
check_payload config expected (some Collected.err) = some Collected.err
check_payload config expected (some (Collected.ok state sniffed)) =
    if not (sniffed.payload_len == expected) && config.checker
    then some Collected.err
    else some (Collected.ok state sniffed)

-- The state behind an event, or STATUS_ERR; `warned` is STATUS_WARN, with which a script goes on. `none` is a
-- failed assert, a NULL pointer that is read, or a payload for which the program aborts.
pub data Ran : Type 0 where
  failed : Ran
  warned passed : State → Ran

abbrev pub report : State → Option Verdict → Option Ran
report state none = none
report state (some Verdict.err) = some failed
report state (some Verdict.warn) = some (warned state)
report state (some Verdict.ok) = some (passed state)

-- One packet is used as it is, more than one are aggregated.
abbrev pub aggregated : Config → List PacketInfo → Option PacketInfo
aggregated config [] = none
aggregated config (live ∷ []) = some live
aggregated config (last ∷ first ∷ earlier) = some (record last {
  fields =
      config.outside.aggregate_packets
        (map (λ (p : PacketInfo). p.fields) (last ∷ first ∷ earlier));
})

-- With the socket under test, of which the packets are.
unfoldable pub verify_sniffed :
    Config → PacketInfo → Option Socket → Option PacketInfo → Option Verdict
unfolding verify_outbound_live_packet
verify_sniffed config script_packet (some socket) (some live) =
    verify_outbound_live_packet config socket script_packet live
verify_sniffed config script_packet socket live = none

abbrev pub verified : Config → PacketInfo → Option Collected → Option Ran
verified config script_packet none = none
verified config script_packet (some Collected.err) = some failed
verified config script_packet (some (Collected.ok state sniffed)) = report state (
    verify_sniffed config script_packet state.socket_under_test (aggregated config sniffed.packets))

unfoldable pub do_outbound_script_packet :
    Config → PacketInfo → Socket → State → List PacketInfo → Option Ran
unfolding collect script_synack packet_view verify_sniffed
do_outbound_script_packet config script_packet socket state arrivals =
    let socket' = script_synack socket (packet_view script_packet).tcp in
    let none_yet : Sniffed = record { packets = []; payload_len = 0 } in
    verified config script_packet (
      check_payload config script_packet.fields.payload_len (
        collect config script_packet (record state { socket_under_test = some socket' }) none_yet
          arrivals))

-- The asserts of send_live_ip_packet, which hold of each packet of a script with a TCP header, are left
-- out.
abbrev pub injected : Config → State → Option (Socket × PacketInfo) → Option Ran
injected config state none = none
injected config state (some (socket, packet)) =
    if config.outside.read_options packet.fields && config.outside.netdev_send packet.fields
    then some (passed (record state { socket_under_test = some socket }))
    else some failed

unfoldable pub do_inbound_script_packet : Config → PacketInfo → Socket → State → Option Ran
unfolding inbound_live_packet
do_inbound_script_packet config packet socket state =
    injected config state (inbound_live_packet config socket packet)

-- With a socket for the packet.
unfoldable pub run_for_socket :
    Config → State → PacketInfo → Direction → List PacketInfo → Socket → Option Ran
unfolding do_outbound_script_packet do_inbound_script_packet
run_for_socket config state packet Direction.outbound arrivals socket =
    do_outbound_script_packet config packet socket state arrivals
run_for_socket config state packet Direction.inbound arrivals socket =
    do_inbound_script_packet config packet socket state
run_for_socket config state packet _ arrivals socket = none

abbrev pub run_found : (State → Socket → Option Ran) → Option (Lookup × State) → Option Ran
run_found run none = none
run_found run (some (Lookup.no_socket, state)) = some failed
run_found run (some (Lookup.found none, state)) = none
run_found run (some (Lookup.found (some socket), state)) = run state socket

unfoldable pub run_packet_event :
    Config → ℕ → State → PacketInfo → Direction → List PacketInfo → Option Ran
unfolding find_or_create_socket_for_script_packet run_for_socket packet_view
run_packet_event config ephemeral_port state packet direction arrivals =
    run_found (λ state' socket. run_for_socket config state' packet direction arrivals socket)
      (find_or_create_socket_for_script_packet config ephemeral_port state (packet_view packet)
        direction)
