-- ===== src/Tests/Generate.antt =====
-- Tests of the fuzz input and the packets that are made of it.
use tcp_fuzz.Prelude.{ap, ◌<◌, ℕ, ◌≡◌, refl, arith, List, [], ◌∷◌, length, Option, none, some}
use tcp_fuzz.Prelude.{true, false, replicate}
use tcp_fuzz.Packet.{Packet}
use tcp_fuzz.Fuzz.Input.{read_byte, read_int, push_all, IsAllocated}
use tcp_fuzz.Fuzz.Input.{Holds, push_all-IsAllocated}
use tcp_fuzz.Fuzz.Compare.{
  same_string, differs, compare_from, fuzz_test_result_compare, Differs, limit,
}
use tcp_fuzz.Fuzz.Compare.{fuzz_test_result_compare-Differs, fuzz_test_result_compare-agrees}
use tcp_fuzz.Fuzz.Script.{add_content_to_fuzz_script, update_fuzz_scripts}
use tcp_fuzz.Fuzz.Generate.State.{Fuzzer}
use tcp_fuzz.Fuzz.Generate.Options.{option_case}
use tcp_fuzz.Fuzz.Generate.Build.{fuzz_to_packet}
use tcp_fuzz.Fuzz.Generate.Total.{IsTestPacket, fuzz_to_packet-IsTestPacket}

abbrev no_comment : ℕ → ℕ → List ℕ
no_comment kind length = []

-- The window and urgent pointer, two options (a maximum segment size and a no-op), and the length.
abbrev fuzzer : Fuzzer
fuzzer = record {
  file = record { string = 1 ∷ 2 ∷ 3 ∷ 4 ∷ 2 ∷ 2 ∷ 5 ∷ 180 ∷ 1 ∷ 0 ∷ 0 ∷ 0 ∷ 3 ∷ []; index = 0 };
  scripts = record { fuzz_script = []; fuzz_scripts = replicate 1000 none; fuzz_loop_index = 0 };
  packet_seq = 7;
  last_packet_data_length = 0;
}

read_int-fuzzer : (read_int fuzzer.file).0 ≡ 0x01020304
unfolding read_int read_byte
read_int-fuzzer = refl

read_byte_past_end : (read_byte (record { string = 9 ∷ []; index = 1 })).0 ≡ 0
unfolding read_byte
read_byte_past_end = refl

script_recorded :
    (update_fuzz_scripts (
      add_content_to_fuzz_script
        (record fuzzer.scripts { fuzz_scripts = none ∷ [] })
        (65 ∷ []))).fuzz_scripts
    ≡ some (65 ∷ []) ∷ []
unfolding update_fuzz_scripts add_content_to_fuzz_script
script_recorded = refl

-- A signed byte: 200 is -56, of which no case of the switch is the remainder; 239 is -17.
option_cases : (option_case 200 ≡ 17) × (option_case 239 ≡ 0) × (option_case 19 ≡ 2)
unfolding option_case
option_cases = (refl, refl, refl)

fuzz_to_packet-IsTestPacket_example :
    (p : Packet) × ((fuzz_to_packet no_comment false true true fuzzer).0 ≡ some p) × IsTestPacket p
fuzz_to_packet-IsTestPacket_example = fuzz_to_packet-IsTestPacket no_comment false true true fuzzer

allocated : IsAllocated (record { bytes = 1 ∷ []; capacity = some 1 })
unfolding Holds
allocated = omega arith

push_all-IsAllocated_example :
    IsAllocated (push_all (record { bytes = 1 ∷ []; capacity = some 1 }) (2 ∷ 3 ∷ []))
push_all-IsAllocated_example =
    push_all-IsAllocated (record { bytes = 1 ∷ []; capacity = some 1 }) (2 ∷ 3 ∷ []) (omega arith)
      allocated

abbrev first_run : List (Option (List ℕ))
first_run = some (65 ∷ []) ∷ none ∷ some (66 ∷ []) ∷ []

abbrev second_run : List (Option (List ℕ))
second_run = some (65 ∷ []) ∷ some (65 ∷ []) ∷ some (67 ∷ []) ∷ []

compared : fuzz_test_result_compare first_run second_run ≡ some 2
unfolding fuzz_test_result_compare compare_from differs same_string
compared = refl

fuzz_test_result_compare-Differs_example : Differs first_run second_run 2 × (2 < 1000)
fuzz_test_result_compare-Differs_example =
    fuzz_test_result_compare-Differs first_run second_run 2 compared

fuzz_test_result_compare-agrees_example : ◌≡◌ {A = List ℕ} (65 ∷ []) (65 ∷ [])
fuzz_test_result_compare-agrees_example =
    fuzz_test_result_compare-agrees first_run second_run 0 (65 ∷ []) (65 ∷ [])
      (omega (arith, ap (limit 1000) compared)) refl refl
