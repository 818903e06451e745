-- ===== src/Timing.antt =====
-- run.c and script.h: the times of the events of a script. A time is a number of microseconds, an
-- integer here: sums of `s64` are taken not to overflow.
pub mod Tolerance
pub mod Loop
pub mod Turns
pub mod Order
pub mod Burst
use tcp_fuzz.Prelude.{ℕ, Bool, true, false, Option, none, some, List, not}
use tcp_fuzz.Prelude.Int.{ℤ, pos, negsuc, ◌+ℤ◌, ◌-ℤ◌, eqb_ℤ}
use tcp_fuzz.Packet.{Direction}

-- `enum event_time_t`
pub data TimeType : Type 0 where
  absolute_time relative_time any_time absolute_range_time relative_range_time : TimeType

-- `enum event_t`, each with what the times depend on: the direction of a packet, and for a system call
-- when it is to return, where -1 is a call that does not block.
pub data EventType : Type 0 where
  packet_event : Direction → EventType
  syscall_event : ℤ → EventType
  command_event code_event : EventType

pub record Event : Type 0 where
  pub time_usecs : ℤ
  pub time_usecs_end : ℤ
  pub offset_usecs : ℤ
  pub time_type : TimeType
  pub type : EventType

-- The events behind the current one are `following`. The number of events executed is left out.
pub record State : Type 0 where
  pub tolerance_usecs : ℕ
  pub script_start_time_usecs : ℤ
  pub script_last_time_usecs : ℤ
  pub live_start_time_usecs : ℤ
  pub event : Option Event
  pub last_event : Option Event
  pub following : List Event

abbrev pub is_event_time_absolute : Event → Bool
is_event_time_absolute event = elim event.time_type [
  | TimeType.absolute_time ↦ true
  | TimeType.absolute_range_time ↦ true
  | _ ↦ false
]

abbrev pub is_inbound_packet : EventType → Bool
is_inbound_packet (EventType.packet_event Direction.inbound) = true
is_inbound_packet _ = false

abbrev pub is_event_start_time_anchored : Event → Bool
is_event_start_time_anchored event = is_inbound_packet event.type

abbrev pub is_blocking_syscall : ℤ → Bool
is_blocking_syscall end_usecs = not (eqb_ℤ end_usecs (negsuc 0))

unfoldable pub script_time_to_live_time_usecs : State → ℤ → ℤ
script_time_to_live_time_usecs state script_time_usecs =
    state.live_start_time_usecs +ℤ (script_time_usecs -ℤ state.script_start_time_usecs)

unfoldable pub live_time_to_script_time_usecs : State → ℤ → ℤ
live_time_to_script_time_usecs state live_time_usecs =
    state.script_start_time_usecs +ℤ (live_time_usecs -ℤ state.live_start_time_usecs)
