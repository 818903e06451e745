-- ===== src/TcpOptions/Iterator.antt =====
-- tcp_options_iterator.c: step from one TCP option of a packet to the next.
-- A pointer is an offset into the bytes of the packet, `NULL` is `none`. The message of an error is
-- its kind. Most of the error cases set the message and go on.
use tcp_fuzz.Prelude.{ℕ, ◌+◌, ltb, leb, ◌==◌, if◌then◌else◌, zero, suc}
use tcp_fuzz.Prelude.{Option, none, some, List, [], ◌∷◌, get_elem?}
use tcp_fuzz.Prelude.Fail.{◌>>=◌, ◌>>◌, guard}

pub data OptionError : Type 0 where
  unexpected_kind length_byte_too_far too_short data_too_far bad_length : OptionError

-- The expected length and the message. Of a kind that is not known the length stays 0.
unfoldable pub get_expected_tcp_option_length : ℕ → Option OptionError → ℕ × Option OptionError
get_expected_tcp_option_length kind error =
    if leb kind 1
    then (1, error)
    else if kind == 2
    then (4, error)
    else if kind == 3
    then (3, error)
    else if kind == 4
    then (2, error)
    else if kind == 8
    then (10, error)
    else if kind == 5
    then (0, error)
    else if kind == 19
    then (0, error)
    else if kind == 34
    then (0, error)
    else if kind == 254
    then (0, error)
    else (0, some OptionError.unexpected_kind)

-- The checks of the length byte, each of which may replace the message.
unfoldable pub length_error : ℕ → ℕ → ℕ → ℕ → Option OptionError → Option OptionError
length_error option end_ expected_length length error =
    let error1 = if ltb length 2 then some OptionError.too_short else error in
    let error2 = if ltb end_ (option + length) then some OptionError.data_too_far else error1 in
    if expected_length == 0
    then error2
    else if length == expected_length
    then error2
    else some OptionError.bad_length

-- The length byte, or `none` for STATUS_ERR; nothing at all if it cannot be read.
unfoldable pub get_tcp_option_length :
    List ℕ → ℕ → ℕ → ℕ → Option OptionError → Option (Option ℕ × Option OptionError)
unfolding length_error
get_tcp_option_length bytes option end_ expected_length error =
    if leb end_ (option + 1) then some (none, some OptionError.length_byte_too_far) else do
      length ← get_elem? bytes (option + 1)
      some (some length, length_error option end_ expected_length length error)

pub record TcpOptionsIterator : Type 0 where
  pub current_option : Option ℕ
  pub options_end : ℕ

-- `current_option` is NULL at the end of the options.
unfoldable pub get_current_option : ℕ → ℕ → Option ℕ
get_current_option current options_end = if leb options_end current then none else some current

unfoldable pub tcp_options_begin : ℕ → ℕ → TcpOptionsIterator
unfolding get_current_option
tcp_options_begin options payload = record {
  current_option = get_current_option options payload;
  options_end = payload;
}

-- What a call of tcp_options_next leaves: the iterator, its result and the message.
pub record Next : Type 0 where
  pub iter : TcpOptionsIterator
  pub option : Option ℕ
  pub error : Option OptionError

-- The length of the option at `current`, if it has one.
unfoldable pub option_length_at :
    List ℕ → ℕ → ℕ → Option OptionError → Option (Option ℕ × Option OptionError)
unfolding get_expected_tcp_option_length get_tcp_option_length
option_length_at bytes current options_end error = do
  kind ← get_elem? bytes current
  let (expected_length, error1) = get_expected_tcp_option_length kind error
  if expected_length == 1
      then some (some 1, error1)
      else get_tcp_option_length bytes current options_end expected_length error1

-- The iterator advances by the length, unless there is none or it is 0.
unfoldable pub advance : TcpOptionsIterator → ℕ → Option ℕ → Option OptionError → Next
unfolding get_current_option
advance iter current none error = record { iter = iter; option = none; error = error }
advance iter current (some zero) error = record { iter = iter; option = none; error = error }
advance iter current (some (suc n)) error =
    let here = get_current_option (current + suc n) iter.options_end in
    record { iter = record iter { current_option = here }; option = here; error = error }

-- Nothing is a failed `assert` or a byte outside the packet.
unfoldable pub tcp_options_next : List ℕ → TcpOptionsIterator → Option OptionError → Option Next
unfolding option_length_at
tcp_options_next bytes iter error = do
  current ← iter.current_option
  guard (ltb current iter.options_end)
  (length, error1) ← option_length_at bytes current iter.options_end error
  some (advance iter current length error1)

pub data Walked : Type 0 where
  fault out_of_fuel : Walked
  visited : List ℕ → Option OptionError → Walked

-- An option was visited before the others.
unfoldable pub visit : ℕ → Walked → Walked
visit i fault = fault
visit i out_of_fuel = out_of_fuel
visit i (visited is error) = visited (i ∷ is) error

-- `for (option = tcp_options_begin(packet, &iter); option != NULL; option = tcp_options_next(&iter,
-- error))`: the options that the body of the loop sees, and the message at the end.
unfoldable pub walk : ℕ → List ℕ → TcpOptionsIterator → Option OptionError → Walked
unfolding tcp_options_next visit
walk zero bytes iter error = out_of_fuel
walk (suc fuel) bytes iter error = elim iter.current_option [
  | none ↦ visited [] error
  | some option ↦ visit option (elim (tcp_options_next bytes iter error) [
    | none ↦ fault
    | some next ↦ elim next.option [
      | none ↦ visited [] next.error
      | some i ↦ walk fuel bytes next.iter next.error
    ]
  ])
]
