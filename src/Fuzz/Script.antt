-- ===== src/Fuzz/Script.antt =====
-- fuzz_test_script.c: the script of what was injected, kept to replay a run. Text is a list of
-- character codes, and `fuzz_script_index` its length. The buffer's 3000 characters are not checked
-- in the code.
use tcp_fuzz.Prelude.{ℕ, ◌+◌, ltb, if◌then◌else◌, List, [], ◌∷◌, ◌++◌, length, set, replicate}
use tcp_fuzz.Prelude.{Option, none, some}

pub record FuzzScripts : Type 0 where
  pub fuzz_script : List ℕ
  pub fuzz_scripts : List (Option (List ℕ))
  pub fuzz_loop_index : ℕ

-- The loop index is not reset here: the runner does that.
unfoldable pub reinit_fuzzing_scripts : FuzzScripts → FuzzScripts
reinit_fuzzing_scripts s = record s { fuzz_script = []; fuzz_scripts = replicate 1000 none }

unfoldable pub add_char_to_fuzz_script : FuzzScripts → ℕ → FuzzScripts
add_char_to_fuzz_script s content = record s { fuzz_script = s.fuzz_script ++ (content ∷ []) }

unfoldable pub add_content_to_fuzz_script : FuzzScripts → List ℕ → FuzzScripts
add_content_to_fuzz_script s content = record s { fuzz_script = s.fuzz_script ++ content }

-- An empty script is not recorded, and takes no index.
unfoldable pub update_fuzz_scripts : FuzzScripts → FuzzScripts
update_fuzz_scripts s = if ltb (length s.fuzz_script) 1 then s else record {
  fuzz_script = [];
  fuzz_scripts = set s.fuzz_scripts s.fuzz_loop_index (some s.fuzz_script);
  fuzz_loop_index = s.fuzz_loop_index + 1;
}
