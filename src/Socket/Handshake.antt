-- ===== src/Socket/Handshake.antt =====
-- run_packet_event with the script's SYNACK.
use tcp_fuzz.Prelude.{ℕ, true, false, Option, none, some, List, ◌∷◌, ◌++◌, ◌≡◌, ◌≢◌, refl}
use tcp_fuzz.Prelude.{ap, ◌∙◌, All}
use tcp_fuzz.Packet.{Direction}
use tcp_fuzz.Verify.{TcpHeader, find_tcp}
use tcp_fuzz.Socket.{SocketPhase, Socket, socket_get_outbound}
use tcp_fuzz.Socket.Runner.{TcpView, Config, is_listening}
use tcp_fuzz.Socket.Find.{PacketInfo, packet_view, flag}
use tcp_fuzz.Socket.Verification.{Verdict, verify_outbound_live_packet}
use tcp_fuzz.Socket.Outbound.{verified}
use tcp_fuzz.Socket.Outbound.{
  script_synack, check_payload, run_found, sniff, convert, collect, do_outbound_script_packet, Ran,
  run_for_socket, run_packet_event,
}
use tcp_fuzz.Socket.Sniffing.{under, IsSynack, IsAck, find_known}
use tcp_fuzz.Socket.Synack.{
  synack_sent, sends_lem, script_synack_lem, convert-payload, none_yet, check_lem, collect_synack,
}

-- The view of a header with the ACK flag, and with the SYN flag too.
synack_view :
    (packet : PacketInfo) (header : TcpHeader)
    → IsSynack packet header
    → (packet_view packet).tcp ≡ some (record { seq = header.seq; syn = true; ack = true })
unfolding packet_view
synack_view packet header (found, syn, ack) = rw (found, syn, ack) refl

pub ack_view :
    (packet : PacketInfo) (header : TcpHeader)
    → IsAck packet header
    → (packet_view packet).tcp
      ≡ some (record { seq = header.seq; syn = flag header.syn; ack = true })
unfolding packet_view
ack_view packet header (found, ack) = rw (found, ack) refl

received-not_listening :
    (socket : Socket)
    → socket.phase ≡ SocketPhase.passive_packet_received
    → is_listening socket.phase ≡ false
received-not_listening socket h = rw (h) refl

-- After the script's SYNACK was noted.
abbrev pub noted_synack : Socket → ℕ → Socket
noted_synack socket script_isn = record socket {
  script = record socket.script { local_isn = script_isn };
}

-- The packet of the stack for which the socket noted its SYNACK, with the numbers of the script.
abbrev pub converted_synack : Socket → ℕ → PacketInfo → TcpHeader → PacketInfo
converted_synack socket script_isn live header =
    (convert
      (record (noted_synack socket script_isn) {
        phase = SocketPhase.passive_synack_sent;
        live = record socket.live { local_isn = header.seq };
      })
      live).1

pub outbound_synack :
    (config : Config) (port : ℕ) (socket : Socket) (kept : Option ℕ)
    (script_packet live : PacketInfo) (noise arrivals : List PacketInfo)
    (script_header header : TcpHeader)
    → socket.phase ≡ SocketPhase.passive_packet_received
    → socket.protocol ≡ 6
    → IsSynack script_packet script_header
    → find_tcp live.fields.headers ≡ some header
    → live.fields.payload_len ≡ script_packet.fields.payload_len
    → config.outside.read_options live.fields ≡ true
    → verify_outbound_live_packet config
        (synack_sent socket script_header.seq header)
        script_packet
        (converted_synack socket script_header.seq live header)
      ≡ some Verdict.ok
    → live.tuple ≡ socket_get_outbound socket.live
    → socket.live.local.ip ≢ socket.live.remote.ip
    → All
        (λ p. sniff (under (noted_synack socket script_header.seq) kept) (packet_view p) ≡ none)
        noise
    → run_packet_event config port
        (under socket kept)
        script_packet
        Direction.outbound
        (noise ++ live ∷ arrivals)
      ≡ some (Ran.passed (under (synack_sent socket script_header.seq header) kept))
unfolding run_packet_event run_for_socket do_outbound_script_packet
outbound_synack config port socket kept script_packet live noise arrivals script_header header phase
      protocol synack live_found same readable accepted tuple apart others =
    let tcp : TcpView = record { seq = script_header.seq; syn = true; ack = true } in
    let view = synack_view script_packet script_header synack in
    let expected = script_packet.fields.payload_len in
    let packets = noise ++ live ∷ arrivals in
    let noted = noted_synack socket script_header.seq in
    let known =
      find_known config port socket kept (packet_view script_packet) tcp Direction.outbound protocol
        (received-not_listening socket phase) refl view in
    let noting : script_synack socket (packet_view script_packet).tcp ≡ noted =
      ap (script_synack socket) view
      ∙ script_synack_lem socket tcp (sends_lem socket tcp phase refl refl) in
    let collected =
      collect_synack config script_packet tcp noted kept live noise arrivals header view
        (sends_lem noted tcp phase refl refl) live_found same readable tuple apart others in
    let sent = synack_sent socket script_header.seq header in
    let live' = converted_synack socket script_header.seq live header in
    let same' : live'.fields.payload_len ≡ expected = convert-payload _ live ∙ same in
    ap
      (run_found (λ state' socket'.
        run_for_socket config state' script_packet Direction.outbound packets socket'))
      known
    ∙ (ap
          (λ s. verified config script_packet (
            check_payload config expected
              (collect config script_packet (under s kept) none_yet packets)))
          noting
        ∙ (ap (λ o. verified config script_packet (check_payload config expected o)) collected
            ∙ check_lem config script_packet sent kept live' same' accepted))
