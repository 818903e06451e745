-- ===== src/Fuzz/Generate/State.antt =====
-- The globals that fuzz_to_packet reads and writes, and a monad over them.
use tcp_fuzz.Prelude.{ℕ, List}
use tcp_fuzz.Fuzz.Input.{FuzzFile, read_byte, read_int}
use tcp_fuzz.Fuzz.Script.{FuzzScripts, add_content_to_fuzz_script}

pub record Fuzzer : Type 0 where
  pub file : FuzzFile
  pub scripts : FuzzScripts
  pub packet_seq : ℕ
  pub last_packet_data_length : ℕ

abbrev pub M : Type 0 → Type 0
M A = Fuzzer → A × Fuzzer

infixl 5 ◌>>=◌ ◌>>◌
abbrev pub ◌>>=◌ : {A B : Type 0} → M A → (A → M B) → M B
◌>>=◌ m f s = let (a, s') = m s in f a s'

abbrev pub ◌>>◌ : {B : Type 0} → M (Unit {0}) → M B → M B
◌>>◌ m k s = k (m s).1

abbrev pub return : {A : Type 0} → A → M A
return a s = (a, s)

unfoldable pub next_byte : M ℕ
next_byte s = let (b, file) = read_byte s.file in (b, record s { file = file })

unfoldable pub next_int : M ℕ
next_int s = let (n, file) = read_int s.file in (n, record s { file = file })

unfoldable pub add_text : List ℕ → M (Unit {0})
add_text text s = (tt, record s { scripts = add_content_to_fuzz_script s.scripts text })

unfoldable pub get_packet_seq : M ℕ
get_packet_seq s = (s.packet_seq, s)

unfoldable pub set_data_length : ℕ → M (Unit {0})
set_data_length n s = (tt, record s { last_packet_data_length = n })
