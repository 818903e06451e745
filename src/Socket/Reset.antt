-- ===== src/Socket/Reset.antt =====
-- run_packet.c: the numbers of the RST with which reset_connection clears a connection out of the kernel after
-- a test.
use tcp_fuzz.Prelude.{ℕ, ◌+◌, ◌≡◌, refl, sym, ap, ◌∙◌, add32, if◌then◌else◌, true, some}
use mathlib.Core.Path.{subst}
use mathlib.Core.Option.{some-injective}
use tcp_fuzz.Verify.{TcpHeader, find_tcp}
use tcp_fuzz.Socket.{
  Socket, map_inbound_sequence, remap, remote_seq_script_to_live_offset,
  local_seq_script_to_live_offset,
}
use tcp_fuzz.Socket.Runner.{Config}
use tcp_fuzz.Socket.Find.{PacketInfo, packet_view, flag}
use tcp_fuzz.Socket.Inbound.{
  fill_anyip, inbound_phase, map_inbound_packet, sequence_fields, with_sequence, fill_payload,
  plain_ipv4, inbound_live_packet,
}
use tcp_fuzz.Socket.Established.{find_tcp-update}

abbrev pub counted : ℕ → ℕ
counted bit = if flag bit then 1 else 0

abbrev pub ResetNumbers : Type 0
ResetNumbers = ℕ × ℕ × ℕ

-- The sequence number, the acknowledged number and the window of the RST.
unfoldable pub reset_numbers : Socket → ResetNumbers
reset_numbers socket =
    let injected = socket.last_injected_tcp_header in
    let outbound = socket.last_outbound_tcp_header in
    if flag injected.ack
    then (
      add32 injected.seq
          (counted injected.syn + counted injected.fin + socket.last_injected_tcp_payload_len),
      injected.ack_seq,
      injected.window,
    )
    else if flag outbound.ack
    then (outbound.ack_seq, outbound.seq, 0)
    else (0, add32 outbound.seq 1, 0)

-- The header of a packet of the script as it is on the wire.
abbrev live_header : Socket → TcpHeader → TcpHeader
live_header socket header =
    with_sequence header (map_inbound_sequence socket (sequence_fields header))

-- The socket behind the packet.
abbrev socket_behind : Config → Socket → PacketInfo → Socket
socket_behind config socket packet =
    fill_anyip config (inbound_phase socket (packet_view packet).tcp) (packet_view packet)

abbrev noted : Socket → TcpHeader → ℕ → Socket
noted socket header payload_len = record socket {
  last_injected_tcp_header = live_header socket header;
  last_injected_tcp_payload_len = payload_len;
}

plain_filled :
    (config : Config) (packet : PacketInfo)
    → plain_ipv4 packet.fields.headers ≡ true
    → fill_payload config packet ≡ packet
unfolding fill_payload
plain_filled config packet plain = rw (plain) refl

mapped_header :
    (socket : Socket) (packet : PacketInfo) (header : TcpHeader)
    → find_tcp packet.fields.headers ≡ some header
    → find_tcp (map_inbound_packet socket packet).fields.headers ≡ some (live_header socket header)
unfolding map_inbound_packet
mapped_header socket packet header found =
    find_tcp-update (live_header socket) packet.fields.headers header found

inbound_live_lem :
    (config : Config) (socket : Socket) (packet : PacketInfo) (header : TcpHeader)
    → find_tcp packet.fields.headers ≡ some header
    → plain_ipv4 packet.fields.headers ≡ true
    → let behind = socket_behind config socket packet in
      inbound_live_packet config socket packet
      ≡ some (
        noted behind header packet.fields.payload_len,
        map_inbound_packet behind (fill_payload config packet),
      )
unfolding inbound_live_packet
inbound_live_lem config socket packet header found plain =
    let filled : find_tcp (fill_payload config packet).fields.headers ≡ some header =
      ap (λ (p : PacketInfo). find_tcp p.fields.headers) (plain_filled config packet plain)
      ∙ found in
    rw
      (
        mapped_header (socket_behind config socket packet) (fill_payload config packet) header
            filled,
        inbound_live_packet,
      )
      refl

-- The numbers of the RST behind a packet of the script, in those of the wire.
abbrev pub next_numbers : Socket → TcpHeader → ℕ → ResetNumbers
next_numbers socket header payload_len = (
  add32 (add32 header.seq (remote_seq_script_to_live_offset socket (flag header.syn)))
      (counted header.syn + counted header.fin + payload_len),
  add32 header.ack_seq (local_seq_script_to_live_offset socket (flag header.syn)),
  header.window,
)

noted_numbers :
    (socket : Socket) (header : TcpHeader) (payload_len : ℕ)
    → flag header.ack ≡ true
    → reset_numbers (noted socket header payload_len)
      ≡ next_numbers (noted socket header payload_len) header payload_len
unfolding reset_numbers map_inbound_sequence remap remote_seq_script_to_live_offset
    local_seq_script_to_live_offset
noted_numbers socket header payload_len acked = rw (acked) refl

-- do_inbound_script_packet takes an IPv4 packet of the script, with a header of 20 bytes, whose TCP header has
-- the ACK flag, up to where it is sent. The RST then has the number behind that packet: the
-- script's, with the offset of the socket for the remote side, and the SYN, the FIN and the payload
-- counted. It acknowledges what the script acknowledges, with the offset for the local side, and it has
-- the window of the script. The sums wrap.
pub reset_numbers-injected :
    (config : Config) (socket socket' : Socket) (packet injected : PacketInfo) (header : TcpHeader)
    → find_tcp packet.fields.headers ≡ some header
    → plain_ipv4 packet.fields.headers ≡ true
    → flag header.ack ≡ true
    → inbound_live_packet config socket packet ≡ some (socket', injected)
    → reset_numbers socket' ≡ next_numbers socket' header packet.fields.payload_len
reset_numbers-injected config socket socket' packet injected header found plain acked did =
    let payload_len = packet.fields.payload_len in
    let behind = socket_behind config socket packet in
    let same =
      some-injective
        (noted behind header payload_len, map_inbound_packet behind (fill_payload config packet))
        (socket', injected)
        (sym (inbound_live_lem config socket packet header found plain) ∙ did) in
    subst (λ (s : Socket). reset_numbers s ≡ next_numbers s header payload_len)
      (ap (λ (r : Socket × PacketInfo). r.0) same) (noted_numbers behind header payload_len acked)
