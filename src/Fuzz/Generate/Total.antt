-- ===== src/Fuzz/Generate/Total.antt =====
-- fuzz_to_packet as a whole.
use tcp_fuzz.Prelude.{
  ℕ, ◌+◌, ◌-◌, ◌*◌, ◌/◌, ◌%◌, ◌^◌, ◌≤◌, ◌<◌, ◌≡◌, refl, sym, ap, ◌∙◌, arith, be16,
}
use tcp_fuzz.Prelude.{Bool, true, false, List, [], ◌∷◌, ◌++◌, length, some}
use tcp_fuzz.Prelude.{length-append, length-replicate, replicate}
use tcp_fuzz.Packet.{Packet, Direction, HeaderType, packet_new}
use tcp_fuzz.Parser.Outcome.{ret, packet_ok}
use tcp_fuzz.Parser.Entry.{PacketLayer, parse_packet}
use tcp_fuzz.Packet.Layout.{header_at}
use tcp_fuzz.Checksum.Filled.{checksum_packet-some, packet-some}
use tcp_fuzz.Checksum.Fill.{checksum_packet}
use tcp_fuzz.Fuzz.Generate.State.{Fuzzer, get_packet_seq, set_data_length}
use tcp_fuzz.Fuzz.Generate.Build.{push_headers, padding_length, payload_bytes, offset_byte}
use tcp_fuzz.Fuzz.Generate.Build.{fuzz_options, finish_packet, fuzz_to_packet, data_length}
use tcp_fuzz.Fuzz.Generate.Shape.{Choices, packet_bytes, push_headers-bytes, fuzz_options-Appended}
use tcp_fuzz.Fuzz.Generate.Shape.{
  length-payload_bytes, header_length, header_length_bounds, total_length, complete-bytes,
}
use tcp_fuzz.Fuzz.Generate.Valid.{parsed, parse_packet-parsed}

-- An inbound packet with an IPv4 header of 20 bytes at the start, right behind it a TCP header of
-- at most 60 bytes whose length is a multiple of four, and contents up to the end of the buffer.
pub record IsTestPacket (packet : Packet) : Type 0 where
  pub tcp_length : ℕ
  pub direction : packet.direction ≡ Direction.inbound
  pub ipv4 : packet.ipv4 ≡ some 0
  pub tcp : packet.tcp ≡ some 20
  pub headers :
      packet.headers
      ≡ header_at HeaderType.ipv4 20 packet.ip_bytes 0
        ∷ header_at HeaderType.tcp tcp_length (packet.ip_bytes - 20) 20
        ∷ []
  pub aligned : tcp_length % 4 ≡ 0
  pub at_least : 20 ≤ tcp_length
  pub at_most : tcp_length ≤ 60
  pub inside : tcp_length + 20 ≤ packet.ip_bytes
  pub buffer_bytes : packet.buffer_bytes ≡ length packet.buffer
  pub contained : packet.ip_bytes ≤ length packet.buffer

finish_packet-some :
    (bytes : List ℕ) (packet packet' : Packet)
    → parse_packet (packet_new bytes) (length bytes) PacketLayer.layer_3_ip ≡ ret packet_ok packet
    → checksum_packet packet ≡ some packet'
    → finish_packet bytes ≡ some (record packet' { direction = Direction.inbound })
unfolding finish_packet
finish_packet-some bytes packet packet' e f = rw (e, f, finish_packet) refl

finish_packet-IsTestPacket :
    (c : Choices) (n data_bytes : ℕ) (tail : List ℕ)
    → n ≤ 40
    → data_bytes < 10000
    → header_length n + data_bytes ≤ 20 + length tail
    → length tail < 2 ^ 20
    → let total = total_length n data_bytes in
      (p : Packet) × (finish_packet
          (packet_bytes c (total / 256) (total % 256) (offset_byte (header_length n / 4)) tail)
        ≡ some p)
      × IsTestPacket p
finish_packet-IsTestPacket c n data_bytes tail h small enough short =
    let total = total_length n data_bytes in
    let off = offset_byte (header_length n / 4) in
    let (aligned, low, high) = header_length_bounds n h in
    let bytes = packet_bytes c (total / 256) (total % 256) off tail in
    let same : off / 16 * 4 ≡ header_length n = omega arith in
    let pk = parsed bytes (be16 (total / 256) (total % 256)) (off / 16 * 4) in
    let ep =
      parse_packet-parsed c (total / 256) (total % 256) off tail (omega arith) (omega arith)
        (omega arith) (omega arith) in
    let (bs, ec, el) =
      packet-some pk 0 20 0x45 (total / 256) (total % 256) refl refl refl refl refl (omega arith)
        (omega arith) (omega arith) (omega arith) (omega arith) in
    (
      _,
      finish_packet-some bytes pk _ ep (checksum_packet-some pk 0 _ refl ec),
      record {
        tcp_length = off / 16 * 4;
        direction = refl;
        ipv4 = refl;
        tcp = refl;
        headers = refl;
        aligned = omega arith;
        at_least = omega arith;
        at_most = omega arith;
        inside = omega arith;
        buffer_bytes = sym el;
        contained = omega arith;
      },
    )

data_length-bound : (d : Bool) (s : Fuzzer) → (data_length d s).0 < 10000
unfolding data_length
data_length-bound true s = omega arith
data_length-bound false s = omega arith

length-tail :
    (opts : List ℕ) (n seq data_bytes : ℕ)
    → length ((opts ++ replicate (padding_length n) 0) ++ payload_bytes seq 0 data_bytes)
      ≡ length opts + padding_length n + data_bytes
length-tail opts n seq data_bytes =
    let pad : List ℕ = replicate (padding_length n) 0 in
    omega (
      arith,
      length-append {0} (opts ++ pad) (payload_bytes seq 0 data_bytes),
      length-append {0} opts pad,
      length-replicate {A = ℕ} (padding_length n) 0,
      length-payload_bytes seq 0 data_bytes,
    )

module _ (comment : ℕ → ℕ → List ℕ) where
  -- Whatever the input holds, whichever of sequence number, options and contents are fuzzed and
  -- whatever is written into the script for an option, fuzz_to_packet builds a packet: the parser
  -- accepts the bytes, the checksums can be filled in, and the result is an inbound packet with one
  -- IPv4 and one TCP header that lies within its buffer.
  pub fuzz_to_packet-IsTestPacket :
      (is_fuzz_without_dependency is_fuzz_options is_fuzz_data : Bool) (s : Fuzzer)
      → (p : Packet) × ((fuzz_to_packet comment is_fuzz_without_dependency is_fuzz_options
            is_fuzz_data s).0
          ≡ some p)
        × IsTestPacket p
  unfolding fuzz_to_packet get_packet_seq set_data_length
  fuzz_to_packet-IsTestPacket w o d s =
      let (headers, s1) = push_headers w s in
      let (c, eh) = push_headers-bytes w s in
      let app = fuzz_options-Appended comment o headers s1 in
      let ((buf, n), s2) = fuzz_options comment o headers s1 in
      let (m, s3) = data_length d s2 in
      let data_bounds : m < 10000 = data_length-bound d s2 in
      let seq = s3.packet_seq in
      let opts = app.opts in
      let eb : buf.bytes ≡ packet_bytes c 0 0 0 opts =
        app.bytes ∙ ap (λ (xs : List ℕ). xs ++ opts) eh in
      let tail = (opts ++ replicate (padding_length n) 0) ++ payload_bytes seq 0 m in
      let len = length-tail opts n seq m in
      let (p, ep, ok) =
        finish_packet-IsTestPacket c n m tail app.at_most data_bounds
          (omega (arith, len, app.at_least))
          (omega (arith, len, app.at_room, header_length_bounds n app.at_most)) in
      (p, ap finish_packet (complete-bytes buf c opts n seq m eb) ∙ ep, ok)
