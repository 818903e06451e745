-- ===== src/Verify/Fragments.antt =====
-- run_packet.c: verify_packet_fragments, and the fragments of a packet one after the other.
use tcp_fuzz.Prelude.{
  ℕ, ◌+◌, ◌-◌, ◌==◌, ◌&&◌, not, if◌then◌else◌, Bool, true, false, Option, some, List,
}
use tcp_fuzz.Prelude.{[], ◌∷◌, ltb, ◌≡◌, refl, arith, add32, length, inl, inr, ◌⊎◌}
use mathlib.Core.Option.{none-ne-some, some-injective}
use tcp_fuzz.Prelude.Fail.{◌>>=◌}
use tcp_fuzz.Verify.{TcpHeader, HeaderFields, PacketFields, find_tcp, tcp_options_allowance}
use tcp_fuzz.Verify.Headers.{verify_tcp, verify_header, verify_layers, verify_outbound_live_headers}

-- The lengths are not negative, so the difference may stop at 0.
unfoldable pub verify_packet_fragments : PacketFields → PacketFields → ℕ → ℕ → ℕ → Option Bool
unfolding verify_outbound_live_headers
verify_packet_fragments current previous current_payload sniffed_payload expected_total_payload =
    verify_outbound_live_headers current previous false >>= λ ok. some (
      ok
      && not (
          ltb current_payload (expected_total_payload - sniffed_payload)
          && not (current_payload == previous.payload_len)))

-- The fragments that are sniffed after the one before, with the payload sniffed up to then.
unfoldable pub verify_fragments : PacketFields → ℕ → ℕ → List PacketFields → Option Bool
unfolding verify_packet_fragments
verify_fragments previous sniffed_payload expected_total_payload [] = some true
verify_fragments previous sniffed_payload expected_total_payload (current ∷ rest) =
    let next =
      verify_fragments current (sniffed_payload + current.payload_len) expected_total_payload
        rest in
    verify_packet_fragments current previous current.payload_len sniffed_payload
      expected_total_payload
    >>= λ ok. if ok then next else some false

tcp_follows :
    (allowance : Option ℕ) (payload_len : ℕ) (win_nocheck : Bool) (a s : TcpHeader)
    → verify_tcp allowance payload_len win_nocheck false a s ≡ some true
    → (a.seq ≡ add32 s.seq payload_len) × (a.ack_seq ≡ s.ack_seq)
unfolding verify_tcp
tcp_follows allowance payload_len win_nocheck a s h = ground arith

-- What is asked of the TCP header of a fragment, by that of the fragment before.
abbrev pub Continues : ℕ → TcpHeader → TcpHeader → Type 0
Continues payload_len before header =
    (header.seq ≡ add32 before.seq payload_len) × (header.ack_seq ≡ before.ack_seq)

head_follows :
    (actual previous : PacketFields) (a s : HeaderFields) (before : TcpHeader)
    (rest_a rest_s : List HeaderFields)
    → verify_header actual previous false a s ≡ some true
    → find_tcp (s ∷ rest_s) ≡ some before
    → ((find_tcp rest_s ≡ some before) × (find_tcp (a ∷ rest_a) ≡ find_tcp rest_a))
      ⊎ ((header : TcpHeader) × (find_tcp (a ∷ rest_a) ≡ some header)
          × Continues previous.payload_len before header)
unfolding verify_header find_tcp
head_follows actual previous (HeaderFields.tcp a) (HeaderFields.tcp s) before rest_a rest_s h e =
    rw⁻¹ (some-injective s before e) (
      inr (
        a,
        refl,
        tcp_follows (tcp_options_allowance actual previous) previous.payload_len
            previous.win_nocheck a s h,
      ))
head_follows actual previous a s before rest_a rest_s h e = ground arith

bind_true :
    (m rest : Option Bool)
    → (m >>= λ ok. if ok then rest else some false) ≡ some true
    → (m ≡ some true) × (rest ≡ some true)
bind_true m rest h = ground arith

layers_follow :
    (actual previous : PacketFields) (a s : List HeaderFields) (before : TcpHeader)
    → length a ≡ length s
    → verify_layers actual previous false a s ≡ some true
    → find_tcp s ≡ some before
    → (header : TcpHeader) × (find_tcp a ≡ some header)
      × Continues previous.payload_len before header
unfolding verify_layers find_tcp
layers_follow actual previous [] [] before l h e = absurd (none-ne-some before e)
layers_follow actual previous [] (s ∷ ss) before l h e = absurd (omega arith)
layers_follow actual previous (a ∷ rest_a) [] before l h e = absurd (omega arith)
layers_follow actual previous (a ∷ rest_a) (s ∷ rest_s) before l h e =
    let (first, rest) =
      bind_true (verify_header actual previous false a s)
        (verify_layers actual previous false rest_a rest_s) h in
    elim (head_follows actual previous a s before rest_a rest_s first e) [
      | inl (below, same) ↦
          rw (same) (layers_follow actual previous rest_a rest_s before (omega arith) rest below)
      | inr found ↦ found
    ]

fragment_follows :
    (current previous : PacketFields) (sniffed expected : ℕ) (before : TcpHeader)
    → verify_packet_fragments current previous current.payload_len sniffed expected ≡ some true
    → find_tcp previous.headers ≡ some before
    → (header : TcpHeader) × (find_tcp current.headers ≡ some header)
      × Continues previous.payload_len before header
unfolding verify_packet_fragments verify_outbound_live_headers
fragment_follows current previous sniffed expected before h e =
    layers_follow current previous current.headers previous.headers before (ground arith)
      (ground arith) e

-- Segments of a stream: each starts where the one before ends, and acknowledges the same.
pub IsStream : ℕ → ℕ → List PacketFields → Type 0
IsStream seq ack_seq [] = Unit {0}
IsStream seq ack_seq (packet ∷ rest) =
    (header : TcpHeader) × (find_tcp packet.headers ≡ some header)
    × (header.seq ≡ seq)
    × (header.ack_seq ≡ ack_seq)
    × IsStream (add32 seq packet.payload_len) ack_seq rest

-- Fragments that verify_packet_fragments accepts one after the other behind a TCP packet are all TCP
-- packets with its acknowledgement number, and carry on its payload without a gap: the sequence number
-- of each is the one where the packet before ends.
pub verify_fragments-IsStream :
    (first : PacketFields) (fragments : List PacketFields) (sniffed expected : ℕ)
    (header : TcpHeader)
    → find_tcp first.headers ≡ some header
    → verify_fragments first sniffed expected fragments ≡ some true
    → IsStream (add32 header.seq first.payload_len) header.ack_seq fragments
unfolding IsStream verify_fragments
verify_fragments-IsStream first [] sniffed expected header e h = tt
verify_fragments-IsStream first (current ∷ rest) sniffed expected header e h =
    let (ok, next) =
      bind_true (verify_packet_fragments current first current.payload_len sniffed expected)
        (verify_fragments current (sniffed + current.payload_len) expected rest) h in
    let (found, is, (seq, ack_seq)) = fragment_follows current first sniffed expected header ok e in
    (
      found,
      is,
      seq,
      ack_seq,
      rw⁻¹ (seq, ack_seq)
          (verify_fragments-IsStream current rest (sniffed + current.payload_len) expected found is
            next),
    )
