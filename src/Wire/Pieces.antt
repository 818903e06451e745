-- ===== src/Wire/Pieces.antt =====
-- read_bytes and write_bytes, whatever pieces the system makes of the bytes.
use tcp_fuzz.Prelude.{ℕ, suc, ◌-◌, ◌==◌, ltb, false, some, List, [], ◌∷◌, ◌++◌, ◌≡◌}
use tcp_fuzz.Prelude.{refl, ap, arith, length, take, drop, length-append, le→ltb}
use tcp_fuzz.Wire.{Reading, received, Writing, accepted, got, read_bytes, sent, write_bytes}

-- Calls of read() that bring these bytes, in pieces of any length and with any number of interruptions
-- between them.
pub data Delivers : List ℕ → List Reading → Type 0 where
  all : Delivers [] []
  later :
      {b : ℕ} {bytes : List ℕ} {readings : List Reading}
      → Delivers (b ∷ bytes) readings
      → Delivers (b ∷ bytes) (Reading.interrupted ∷ readings)
  piece :
      {b : ℕ} {bytes rest : List ℕ} {readings : List Reading}
      → Delivers rest readings
      → Delivers ((b ∷ bytes) ++ rest) (received (b ∷ bytes) ∷ readings)

-- A piece of the bytes that are asked for.
read_piece :
    (b : ℕ) (bytes rest : List ℕ) (readings later_ones : List Reading)
    → read_bytes (length rest) readings ≡ some (got rest later_ones)
    → read_bytes (length ((b ∷ bytes) ++ rest)) (received (b ∷ bytes) ∷ readings)
      ≡ some (got ((b ∷ bytes) ++ rest) later_ones)
unfolding read_bytes
read_piece b bytes rest readings later_ones h =
    let total = length-append {A = ℕ} bytes rest in
    let left : suc (length (bytes ++ rest)) - suc (length bytes) ≡ length rest =
      omega (arith, total) in
    let fits : ltb (suc (length (bytes ++ rest))) (suc (length bytes)) ≡ false =
      le→ltb _ _ (omega (arith, total)) in
    let some_bytes : (suc (length bytes) == 0) ≡ false = ground arith in
    rw (left, fits, some_bytes, h) refl

pub read_bytes-Delivers :
    (bytes : List ℕ) (readings later_ones : List Reading)
    → Delivers bytes readings
    → read_bytes (length bytes) (readings ++ later_ones) ≡ some (got bytes later_ones)
unfolding read_bytes
read_bytes-Delivers _ _ later_ones all = refl
read_bytes-Delivers _ _ later_ones (later {b = b} {bytes = bytes} {readings = readings} h) =
    read_bytes-Delivers (b ∷ bytes) readings later_ones h
read_bytes-Delivers _ _ later_ones
      (piece {b = b} {bytes = bytes} {rest = rest} {readings = readings} h) =
    read_piece b bytes rest (readings ++ later_ones) later_ones
      (read_bytes-Delivers rest readings later_ones h)

-- Calls of write() that take these bytes, in pieces.
pub data Takes : List ℕ → List Writing → Type 0 where
  taken : Takes [] []
  retry :
      {b : ℕ} {bytes : List ℕ} {writings : List Writing}
      → Takes (b ∷ bytes) writings
      → Takes (b ∷ bytes) (Writing.interrupted ∷ writings)
  part :
      (b : ℕ) (bytes rest : List ℕ) {writings : List Writing}
      → Takes rest writings
      → Takes ((b ∷ bytes) ++ rest) (accepted (suc (length bytes)) ∷ writings)

take-append : (xs ys : List ℕ) → take (length xs) (xs ++ ys) ≡ xs
take-append [] ys = refl
take-append (x ∷ xs) ys = ap (λ zs. x ∷ zs) (take-append xs ys)

drop-append : (xs ys : List ℕ) → drop (length xs) (xs ++ ys) ≡ ys
drop-append [] ys = refl
drop-append (x ∷ xs) ys = drop-append xs ys

write_part :
    (b : ℕ) (bytes rest : List ℕ) (writings later_ones : List Writing)
    → write_bytes rest writings ≡ some (sent rest later_ones)
    → write_bytes ((b ∷ bytes) ++ rest) (accepted (suc (length bytes)) ∷ writings)
      ≡ some (sent ((b ∷ bytes) ++ rest) later_ones)
unfolding write_bytes
write_part b bytes rest writings later_ones h =
    let total = length-append {A = ℕ} bytes rest in
    let fits : ltb (suc (length (bytes ++ rest))) (suc (length bytes)) ≡ false =
      le→ltb _ _ (omega (arith, total)) in
    rw (fits, drop-append bytes rest, take-append bytes rest, h) refl

pub write_bytes-Takes :
    (bytes : List ℕ) (writings later_ones : List Writing)
    → Takes bytes writings
    → write_bytes bytes (writings ++ later_ones) ≡ some (sent bytes later_ones)
unfolding write_bytes
write_bytes-Takes _ _ later_ones taken = refl
write_bytes-Takes _ _ later_ones (retry {b = b} {bytes = bytes} {writings = writings} h) =
    write_bytes-Takes (b ∷ bytes) writings later_ones h
write_bytes-Takes _ _ later_ones (part b bytes rest {writings = writings} h) =
    write_part b bytes rest (writings ++ later_ones) later_ones
      (write_bytes-Takes rest writings later_ones h)
