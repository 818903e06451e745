-- ===== src/Tests/Structures.antt =====
-- Tests of the hash map, the TCP options and the sequence numbers.
use tcp_fuzz.Prelude.{ℕ, ◌%◌, ◌≤◌, ◌≡◌, refl, arith, List, [], ◌∷◌, ◌++◌, Option, none, some}
use tcp_fuzz.Prelude.{true, false, inl, inr}
use tcp_fuzz.HashMap.{HashMap, hash_map_new, hash_map_set, hash_map_get, grow_count}
use tcp_fuzz.HashMap.{hash_map_pick_bucket_count, hash_map_insert, hash_map_grow, hash_map_link}
use tcp_fuzz.HashMap.{make_room, link_all, find, concat, hash_bucket_num}
use tcp_fuzz.HashMap.Invariant.{IsWellFormed}
use tcp_fuzz.HashMap.New.{get-hash_map_new}
use tcp_fuzz.HashMap.Set.{get-set, set-IsWellFormed}
use tcp_fuzz.TcpOptions.{TcpOption, TcpOptions, wire_bytes, tcp_options_append, tcp_options_new}
use tcp_fuzz.TcpOptions.Iterator.{OptionError, walk, visited, tcp_options_begin}
use tcp_fuzz.TcpOptions.Iterator.{get_expected_tcp_option_length}
use tcp_fuzz.TcpOptions.Walk.{walk_lem, IsWithin}
use tcp_fuzz.TcpOptions.RoundTrip.{IsStandard, all_wire_bytes, starts, walk-all_wire_bytes}
use tcp_fuzz.TcpOptions.Append.{Holds, tcp_options_append-Holds}
use tcp_fuzz.Socket.{
  SocketPhase, Endpoint, Socket, SequenceFields, tcp_convert_seq_number, map_inbound_sequence,
  remap,
}
use tcp_fuzz.Socket.{remote_seq_live_to_script_offset, local_seq_live_to_script_offset}
use tcp_fuzz.Socket.Runner.{socket_new}
use tcp_fuzz.Socket.Mapping.{convert-live, outbound_live}

-- A hash function that sends neighbours to one bucket.
abbrev halves : ℕ → ℕ
halves key = key % 3

abbrev two_keys : HashMap
two_keys = hash_map_set halves (hash_map_set halves (hash_map_new 1) 4 40) 7 70

two_keys-IsWellFormed : IsWellFormed halves two_keys
two_keys-IsWellFormed =
    set-IsWellFormed halves (hash_map_set halves (hash_map_new 1) 4 40) 7 70
      (set-IsWellFormed halves (hash_map_new 1) 4 40 (get-hash_map_new halves 1 4).2)

two_keys_grew : two_keys.num_buckets ≡ 2
unfolding hash_map_set hash_map_new hash_map_pick_bucket_count grow_count hash_map_insert make_room
    hash_map_grow link_all hash_map_link find concat hash_bucket_num
two_keys_grew = refl

get-hash_map_new_example :
    (hash_map_get halves (hash_map_new 1) 4 ≡ none)
    × (1 ≤ (hash_map_new 1).num_buckets)
    × IsWellFormed halves (hash_map_new 1)
get-hash_map_new_example = get-hash_map_new halves 1 4

get-set_example :
    hash_map_get halves (hash_map_set halves two_keys 4 41) 7 ≡ hash_map_get halves two_keys 7
get-set_example = get-set halves two_keys 4 41 7 two_keys-IsWellFormed

set-IsWellFormed_example : IsWellFormed halves (hash_map_set halves two_keys 4 41)
set-IsWellFormed_example = set-IsWellFormed halves two_keys 4 41 two_keys-IsWellFormed

abbrev nop : TcpOption
nop = record { kind = 1; option_length = 1; contents = [] }

abbrev mss : TcpOption
mss = record { kind = 2; option_length = 4; contents = 5 ∷ 180 ∷ [] }

nop-IsStandard : IsStandard nop
unfolding get_expected_tcp_option_length
nop-IsStandard = record { expected = 1; known = refl; counted = inl (refl, refl) }

mss-IsStandard : IsStandard mss
unfolding get_expected_tcp_option_length
mss-IsStandard = record { expected = 4; known = refl; counted = inr (omega arith, refl, inr refl) }

walk_lem_example :
    (is : List ℕ) × (e : Option OptionError) × (walk 6
        (1 ∷ 2 ∷ 9 ∷ 5 ∷ 0 ∷ [])
        (tcp_options_begin 0 5)
        none
      ≡ visited is e)
    × IsWithin 0 5 is
walk_lem_example = walk_lem (1 ∷ 2 ∷ 9 ∷ 5 ∷ 0 ∷ []) 0 5 (omega arith)

walk-all_wire_bytes_example :
    walk 3 (all_wire_bytes (nop ∷ mss ∷ nop ∷ [])) (tcp_options_begin 0 6) none
    ≡ visited (0 ∷ 1 ∷ 5 ∷ []) none
unfolding all_wire_bytes starts wire_bytes
walk-all_wire_bytes_example =
    walk-all_wire_bytes nop (mss ∷ nop ∷ [])
      (nop-IsStandard, (mss-IsStandard, (nop-IsStandard, tt)))

tcp_options_append-Holds_example :
    (options : TcpOptions) × (tcp_options_append tcp_options_new mss ≡ some options)
    × Holds options ([] ++ wire_bytes mss)
tcp_options_append-Holds_example =
    tcp_options_append-Holds tcp_options_new [] mss (refl, refl, refl) mss-IsStandard (omega arith)

abbrev here : Endpoint
here = record { ip = 10; port = 80 }

abbrev there : Endpoint
there = record { ip = 20; port = 9000 }

abbrev socket : Socket
socket = record socket_new {
  phase = SocketPhase.active_syn_sent;
  protocol = 6;
  script = record { local = here; local_isn = 100; remote = there; remote_isn = 0 };
  live = record {
    local = record { ip = 0; port = 0 };
    local_isn = 4294967290;
    remote = there;
    remote_isn = 77;
  };
}

abbrev fields : SequenceFields
fields = record {
  seq = 10;
  ack_seq = 1;
  syn = false;
  ack = true;
  sack = record { left = 3; right = 9 } ∷ [];
}

convert-live_example :
    (tcp_convert_seq_number socket (outbound_live socket fields) ≡ fields)
    × (remap
          (map_inbound_sequence socket fields)
          (remote_seq_live_to_script_offset socket false)
          (local_seq_live_to_script_offset socket false)
        ≡ fields)
convert-live_example = convert-live socket fields (omega arith)
