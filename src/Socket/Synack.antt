-- ===== src/Socket/Synack.antt =====
-- The SYNACK of a passive connection, sniffed for a socket that has received the first packet.
use tcp_fuzz.Prelude.{ℕ, true, false, Option, none, some, List, [], ◌∷◌, ◌++◌, ◌≡◌, ◌≢◌, refl}
use tcp_fuzz.Prelude.{ap, ◌∙◌, arith, All, ltb, ==_refl}
use tcp_fuzz.Verify.{TcpHeader, find_tcp}
use tcp_fuzz.Socket.{SocketPhase, Socket, socket_get_outbound}
use tcp_fuzz.Socket.Runner.{TcpView, Config, State}
use tcp_fuzz.Socket.Find.{PacketInfo, packet_view}
use tcp_fuzz.Socket.Verification.{Verdict, verify_outbound_live_packet}
use tcp_fuzz.Prelude.{if◌then◌else◌, Bool, ◌==◌, ◌&&◌, not}
use tcp_fuzz.Socket.Runner.{has_tcp}
use tcp_fuzz.Socket.Outbound.{verified, report, verify_sniffed, is_unreadable}
use tcp_fuzz.Socket.Outbound.{
  script_synack, sends_synack, alone, wants_more, check_payload, sniff, live_synack, convert,
  Sniffed, append, Progress, take_noted, take_packet, Collected, collect, Ran,
}
use tcp_fuzz.Socket.Sniffing.{and_false, under, match_live-outbound, sniff-known, collect-skip}

-- What a socket is when its SYNACK was sent: by the script with the number `script_isn`, by the stack with
-- the header `live`.
abbrev pub synack_sent : Socket → ℕ → TcpHeader → Socket
synack_sent socket script_isn live = record socket {
  phase = SocketPhase.passive_synack_sent;
  script = record socket.script { local_isn = script_isn };
  live = record socket.live { local_isn = live.seq };
  last_outbound_tcp_header = live;
}

pub sends_lem :
    (socket : Socket) (tcp : TcpView)
    → socket.phase ≡ SocketPhase.passive_packet_received
    → tcp.syn ≡ true
    → tcp.ack ≡ true
    → sends_synack socket (some tcp) ≡ true
sends_lem socket tcp phase syn ack = rw (phase, syn, ack) refl

pub script_synack_lem :
    (socket : Socket) (tcp : TcpView)
    → sends_synack socket (some tcp) ≡ true
    → script_synack socket (some tcp)
      ≡ record socket { script = record socket.script { local_isn = tcp.seq } }
unfolding script_synack
script_synack_lem socket tcp sends = rw (sends) refl

live_synack_lem :
    (socket : Socket) (tcp : Option TcpView) (header : TcpHeader)
    → sends_synack socket tcp ≡ true
    → live_synack socket tcp (some header)
      ≡ some (record socket {
        phase = SocketPhase.passive_synack_sent;
        live = record socket.live { local_isn = header.seq };
      })
unfolding live_synack
live_synack_lem socket tcp header sends = rw (sends) refl

convert-socket :
    (socket : Socket) (live : PacketInfo) (header : TcpHeader)
    → find_tcp live.fields.headers ≡ some header
    → (convert socket live).0 ≡ record socket { last_outbound_tcp_header = header }
unfolding convert
convert-socket socket live header e = rw (e, convert) refl

pub convert-payload :
    (socket : Socket) (live : PacketInfo)
    → (convert socket live).1.fields.payload_len ≡ live.fields.payload_len
unfolding convert
convert-payload socket live = ground arith

ltb_irrefl : (n : ℕ) → ltb n n ≡ false
ltb_irrefl n = ground arith

abbrev pub none_yet : Sniffed
none_yet = record { packets = []; payload_len = 0 }

wants_lem :
    (config : Config) (expected : ℕ) (sniffed : Sniffed)
    → sniffed.payload_len ≡ expected
    → wants_more config expected sniffed ≡ false
wants_lem config expected sniffed e = rw (e, ltb_irrefl expected) refl

-- The first packet that is sniffed, with as much payload as the script says, is the last.
progress_lem :
    (config : Config) (expected : ℕ) (socket noted : Socket) (kept : Option ℕ) (live : PacketInfo)
    (header : TcpHeader)
    → find_tcp live.fields.headers ≡ some header
    → live.fields.payload_len ≡ expected
    → take_noted config expected (under socket kept) none_yet (some noted) (λ s. convert s live)
      ≡ some (
          Progress.finish
            (under (record noted { last_outbound_tcp_header = header }) kept)
            (alone (convert noted live).1))
unfolding take_noted append
progress_lem config expected socket noted kept live header found same =
    rw
      (wants_lem config expected (alone (convert noted live).1) (convert-payload noted live ∙ same))
      (ap (λ (s : Socket). some (Progress.finish (under s kept) (alone (convert noted live).1)))
        (convert-socket noted live header found))

length_lem :
    (config : Config) (state : State) (sniffed : Sniffed) (expected : ℕ)
    → sniffed.payload_len ≡ expected
    → check_payload config expected (some (Collected.ok state sniffed))
      ≡ some (Collected.ok state sniffed)
length_lem config state sniffed expected same =
    let right : (not (sniffed.payload_len == expected) && config.checker) ≡ false =
      ap (λ b. not b && config.checker) (ap (λ n. n == expected) same ∙ ==_refl expected) in
    ap (λ (b : Bool). if b then some Collected.err else some (Collected.ok state sniffed)) right

-- One packet of the right length, which passes the verification.
pub check_lem :
    (config : Config) (script_packet : PacketInfo) (socket : Socket) (kept : Option ℕ)
    (live : PacketInfo)
    → live.fields.payload_len ≡ script_packet.fields.payload_len
    → verify_outbound_live_packet config socket script_packet live ≡ some Verdict.ok
    → verified config script_packet (
        check_payload config script_packet.fields.payload_len
          (some (Collected.ok (under socket kept) (alone live))))
      ≡ some (Ran.passed (under socket kept))
unfolding verify_sniffed
check_lem config script_packet socket kept live same accepted =
    ap (verified config script_packet)
      (length_lem config (under socket kept) (alone live) script_packet.fields.payload_len same)
    ∙ ap (report (under socket kept)) accepted

readable_lem :
    (config : Config) (live : PacketInfo)
    → config.outside.read_options live.fields ≡ true
    → is_unreadable config live ≡ false
unfolding is_unreadable
readable_lem config live h = rw (h) (and_false (has_tcp (packet_view live).tcp))

take_synack :
    (config : Config) (script_packet : PacketInfo) (tcp : TcpView) (socket : Socket)
    (kept : Option ℕ) (live : PacketInfo) (header : TcpHeader)
    → (packet_view script_packet).tcp ≡ some tcp
    → sends_synack socket (some tcp) ≡ true
    → find_tcp live.fields.headers ≡ some header
    → live.fields.payload_len ≡ script_packet.fields.payload_len
    → config.outside.read_options live.fields ≡ true
    → let noted = record socket {
      phase = SocketPhase.passive_synack_sent;
      live = record socket.live { local_isn = header.seq };
    } in
      take_packet config script_packet socket (under socket kept) none_yet live
      ≡ some (
          Progress.finish
            (under (record noted { last_outbound_tcp_header = header }) kept)
            (alone (convert noted live).1))
unfolding take_packet
take_synack config script_packet tcp socket kept live header view sends found same readable =
    let noted = record socket {
      phase = SocketPhase.passive_synack_sent;
      live = record socket.live { local_isn = header.seq };
    } in
    let expected = script_packet.fields.payload_len in
    let notes : live_synack socket (packet_view script_packet).tcp (find_tcp live.fields.headers)
        ≡ some noted =
      ap (λ v. live_synack socket v (find_tcp live.fields.headers)) view
      ∙ (ap (live_synack socket (some tcp)) found
          ∙ live_synack_lem socket (some tcp) header sends) in
    ap
      (λ (b : Bool).
        if b
        then some Progress.stop
        else take_noted config expected (under socket kept) none_yet
            (live_synack socket (packet_view script_packet).tcp (find_tcp live.fields.headers))
            (λ s. convert s live))
      (readable_lem config live readable)
    ∙ (ap (λ n. take_noted config expected (under socket kept) none_yet n (λ s. convert s live))
          notes
        ∙ progress_lem config expected socket noted kept live header found same)

-- The SYNACK is sniffed behind packets that are not of the socket.
pub collect_synack :
    (config : Config) (script_packet : PacketInfo) (tcp : TcpView) (socket : Socket)
    (kept : Option ℕ) (live : PacketInfo) (noise arrivals : List PacketInfo) (header : TcpHeader)
    → (packet_view script_packet).tcp ≡ some tcp
    → sends_synack socket (some tcp) ≡ true
    → find_tcp live.fields.headers ≡ some header
    → live.fields.payload_len ≡ script_packet.fields.payload_len
    → config.outside.read_options live.fields ≡ true
    → live.tuple ≡ socket_get_outbound socket.live
    → socket.live.local.ip ≢ socket.live.remote.ip
    → All (λ p. sniff (under socket kept) (packet_view p) ≡ none) noise
    → let noted = record socket {
      phase = SocketPhase.passive_synack_sent;
      live = record socket.live { local_isn = header.seq };
    } in
      collect config script_packet (under socket kept) none_yet (noise ++ live ∷ arrivals)
      ≡ some (
          Collected.ok
            (under (record noted { last_outbound_tcp_header = header }) kept)
            (alone (convert noted live).1))
unfolding collect packet_view
collect_synack config script_packet tcp socket kept live noise arrivals header view sends found same
      readable tuple apart others =
    let sniffed =
      sniff-known socket kept (packet_view live)
        (match_live-outbound socket (packet_view live) tuple apart) in
    collect-skip config script_packet (under socket kept) none_yet noise (live ∷ arrivals) others
    ∙ rw
        (
          sniffed,
          collect,
          take_synack config script_packet tcp socket kept live header view sends found same
              readable,
        )
        refl
