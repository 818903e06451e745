-- ===== src/Fuzz/Input.antt =====
-- fuzz_test_helper.c: the fuzz input as a string of bytes that is read from front to back, and the
-- growing array in which a packet is built.
use tcp_fuzz.Prelude.{
  ℕ, ◌+◌, ◌*◌, ◌%◌, ◌^◌, ◌≤◌, ◌<◌, ◌≡◌, suc, sym, ◌∙◌, leb, ltb, arith, true, false, Option, none,
  some,
}
use tcp_fuzz.Prelude.{if◌then◌else◌, List, [], ◌∷◌, ◌++◌, length, length-append, get_or, add32}
use mathlib.Core.List.{append_assoc, append-nil}

-- `fuzz_file_string` with its length, and `fuzz_file_index`.
pub record FuzzFile : Type 0 where
  pub string : List ℕ
  pub index : ℕ

-- Past the end of the input every byte is 0.
unfoldable pub read_byte : FuzzFile → ℕ × FuzzFile
read_byte file =
    if leb (length file.string) file.index
    then (0, file)
    else (get_or file.string file.index 0, record file { index = add32 file.index 1 })

-- `result <<= 8` on a `u32`, then `|=` with a byte.
abbrev shift_in : ℕ → ℕ → ℕ
shift_in result b = result * 256 % 2 ^ 32 + b

unfoldable pub read_int : FuzzFile → ℕ × FuzzFile
unfolding read_byte
read_int file =
    let (a, file1) = read_byte file in
    let (b, file2) = read_byte file1 in
    let (c, file3) = read_byte file2 in
    let (d, file4) = read_byte file3 in (shift_in (shift_in (shift_in a b) c) d, file4)

-- The array `data`; its size is the length of the list. The capacity is an `int`: `none` is what is left
-- when its doubling has passed 2^31 - 1, for which C says nothing. `realloc` is taken to succeed.
pub record Data : Type 0 where
  pub bytes : List ℕ
  pub capacity : Option ℕ

-- `(*capacity) *= 2`
abbrev doubled : ℕ → Option ℕ
doubled capacity = if ltb capacity (2 ^ 30) then some (capacity * 2) else none

abbrev capacity_for : ℕ → Option ℕ → Option ℕ
capacity_for size none = none
capacity_for size (some capacity) = if leb capacity size then doubled capacity else some capacity

unfoldable pub push_data : Data → ℕ → Data
push_data d value = record {
  bytes = d.bytes ++ (value ∷ []);
  capacity = capacity_for (length d.bytes) d.capacity;
}

-- Calls of push_data one after the other.
unfoldable pub push_all : Data → List ℕ → Data
unfolding push_data
push_all d [] = d
push_all d (b ∷ bs) = push_all (push_data d b) bs

-- What is written lies inside the array: the size has not passed the capacity, which is an `int`.
unfoldable pub Holds : ℕ → Option ℕ → Type 0
Holds size none = false ≡ true
Holds size (some capacity) = (size ≤ capacity) × (0 < capacity) × (capacity < 2 ^ 31)

abbrev pub IsAllocated : Data → Type 0
IsAllocated d = Holds (length d.bytes) d.capacity

capacity_for-Holds :
    (size : ℕ) (capacity : Option ℕ)
    → suc size ≤ 2 ^ 30
    → Holds size capacity
    → Holds (suc size) (capacity_for size capacity)
unfolding Holds
capacity_for-Holds size none small h = h
capacity_for-Holds size (some capacity) small h = ground arith

push_data-IsAllocated :
    (d : Data) (value : ℕ)
    → suc (length d.bytes) ≤ 2 ^ 30
    → IsAllocated d
    → IsAllocated (push_data d value)
unfolding push_data
push_data-IsAllocated d value small h =
    let longer : length (d.bytes ++ (value ∷ [])) ≡ suc (length d.bytes) =
      length-append d.bytes (value ∷ []) ∙ omega arith in
    rw (longer) (capacity_for-Holds (length d.bytes) d.capacity small h)

pub push_all-bytes : (d : Data) (bs : List ℕ) → (push_all d bs).bytes ≡ d.bytes ++ bs
unfolding push_all
push_all-bytes d [] = sym (append-nil d.bytes)
push_all-bytes d (b ∷ bs) = push_all-bytes (push_data d b) bs ∙ append_assoc d.bytes (b ∷ []) bs

-- Calls of push_data that fill an allocated array with up to 2^30 bytes write inside the array each time, and
-- its capacity stays an `int`.
pub push_all-IsAllocated :
    (d : Data) (bs : List ℕ)
    → length d.bytes + length bs ≤ 2 ^ 30
    → IsAllocated d
    → IsAllocated (push_all d bs)
unfolding push_all
push_all-IsAllocated d [] small h = h
push_all-IsAllocated d (b ∷ bs) small h =
    push_all-IsAllocated (push_data d b) bs
      (ground (arith, push_data, length-append d.bytes (b ∷ [])))
      (push_data-IsAllocated d b (omega arith) h)
