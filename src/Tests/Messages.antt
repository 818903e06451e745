-- ===== src/Tests/Messages.antt =====
-- Tests of messages on the wire, of label stacks and of the finite map.
use tcp_fuzz.Prelude.{
  ℕ, ◌*◌, ◌≤◌, ◌≡◌, refl, arith, true, some, none, List, [], ◌∷◌, ◌++◌, ◌↔◌, length, IsU32,
}
use tcp_fuzz.Prelude.Int.{pos}
use tcp_fuzz.Wire.{
  Reading, received, Writing, accepted, invalid, message, sent, wire_header, wire_conn_write,
  wire_conn_read, read_bytes,
}
use tcp_fuzz.Wire.Pieces.{Delivers, all, later, piece, Takes, taken, retry, part}
use tcp_fuzz.Wire.RoundTrip.{wire_round_trip}
use tcp_fuzz.Mpls.{
  mpls_entry_label, mpls_entry_tc, mpls_entry_stack, mpls_entry_ttl, mpls_entry_set,
  new_mpls_stack_entry, mpls_stack_append, new_mpls_stack_entry_iff,
}
use tcp_fuzz.HashMap.{hash_map_new, hash_map_get}
use tcp_fuzz.HashMap.Refinement.{Write, put_all, run_writes, hash_map_refines}

abbrev header : List ℕ
header = 0 ∷ 0 ∷ 0 ∷ 11 ∷ 0 ∷ 0 ∷ 0 ∷ 3 ∷ []

abbrev body : List ℕ
body = 65 ∷ 66 ∷ 67 ∷ []

header_is : wire_header 3 (length body) ≡ header
header_is = refl

-- The header in two pieces, and an interruption before the body.
header_pieces :
    Delivers header (received (0 ∷ 0 ∷ 0 ∷ []) ∷ received (11 ∷ 0 ∷ 0 ∷ 0 ∷ 3 ∷ []) ∷ [])
header_pieces = piece (piece all)

body_pieces : Delivers body (Reading.interrupted ∷ received body ∷ [])
body_pieces = later (piece all)

abbrev header_writes : List Writing
header_writes = accepted 8 ∷ []

header_taken : Takes header header_writes
header_taken = part 0 (0 ∷ 0 ∷ 11 ∷ 0 ∷ 0 ∷ 0 ∷ 3 ∷ []) [] taken

body_taken : Takes body (accepted 1 ∷ Writing.interrupted ∷ accepted 2 ∷ [])
body_taken = part 65 [] (66 ∷ 67 ∷ []) (retry (part 66 (67 ∷ []) [] taken))

read_in_pieces :
    wire_conn_read 0 (
      received (0 ∷ 0 ∷ 0 ∷ [])
      ∷ received (11 ∷ 0 ∷ 0 ∷ 0 ∷ 3 ∷ [])
      ∷ Reading.interrupted
      ∷ received body
      ∷ [])
    ≡ some (message 3 body 6 [])
unfolding wire_conn_read read_bytes
read_in_pieces = refl

-- A length below that of the header.
short_length : wire_conn_read 0 (received (0 ∷ 0 ∷ 0 ∷ 7 ∷ 0 ∷ 0 ∷ 0 ∷ 3 ∷ []) ∷ []) ≡ some invalid
unfolding wire_conn_read read_bytes
short_length = refl

wire_round_trip_example :
    (wire_conn_write 3 body
        (header_writes ++ ((accepted 1 ∷ Writing.interrupted ∷ accepted 2 ∷ []) ++ []))
      ≡ some (sent (header ++ body) []))
    × ((space : ℕ) × (wire_conn_read 0 (
            (received (0 ∷ 0 ∷ 0 ∷ []) ∷ received (11 ∷ 0 ∷ 0 ∷ 0 ∷ 3 ∷ []) ∷ [])
            ++ ((Reading.interrupted ∷ received body ∷ []) ++ []))
          ≡ some (message 3 body space []))
        × (length body ≤ space))
wire_round_trip_example =
    wire_round_trip 3 0 body header_writes (accepted 1 ∷ Writing.interrupted ∷ accepted 2 ∷ []) []
      (received (0 ∷ 0 ∷ 0 ∷ []) ∷ received (11 ∷ 0 ∷ 0 ∷ 0 ∷ 3 ∷ []) ∷ [])
      (Reading.interrupted ∷ received body ∷ []) [] (omega arith) (omega arith) header_taken
      body_taken header_pieces body_pieces

label_too_big : new_mpls_stack_entry (pos 1048576) (pos 0) true (pos 64) ≡ none
unfolding new_mpls_stack_entry mpls_entry_set
label_too_big = refl

full_stack : mpls_stack_append (1 ∷ 2 ∷ 3 ∷ 4 ∷ 5 ∷ 6 ∷ []) 7 ≡ none
unfolding mpls_stack_append
full_stack = refl

new_mpls_stack_entry_iff_example :
    (new_mpls_stack_entry (pos 5) (pos 2) true (pos 64) ≡ some 21824) ↔ (
      (pos 5 ≡ pos (mpls_entry_label 21824))
      × (pos 2 ≡ pos (mpls_entry_tc 21824))
      × (pos 64 ≡ pos (mpls_entry_ttl 21824))
      × (mpls_entry_stack 21824 ≡ true)
      × IsU32 21824)
new_mpls_stack_entry_iff_example = new_mpls_stack_entry_iff (pos 5) (pos 2) (pos 64) true 21824

abbrev hash : ℕ → ℕ
hash key = key * 7

abbrev writes : List Write
writes = record { key = 3; value = 30 } ∷ record { key = 3; value = 31 } ∷ []

hash_map_refines_example :
    hash_map_get hash (run_writes hash writes (hash_map_new 1)) 3 ≡ put_all writes (λ j. none) 3
hash_map_refines_example = hash_map_refines hash 1 writes 3

last_write : put_all writes (λ j. none) 3 ≡ some 31
unfolding put_all
last_write = refl
