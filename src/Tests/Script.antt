-- ===== src/Tests/Script.antt =====
-- Tests of the times of a script.
use tcp_fuzz.Prelude.{ℕ, ◌≡◌, refl, true, false, none, some, List, [], ◌∷◌, ◌↔◌, map}
use tcp_fuzz.Prelude.Int.{ℤ, pos, negsuc, ◌+ℤ◌, ◌-ℤ◌}
use tcp_fuzz.Packet.{Direction}
use tcp_fuzz.Timing.{TimeType, EventType, Event, State}
use tcp_fuzz.Timing.Tolerance.{in_range, verify_time, IsOnTime, verify_time_iff}
use tcp_fuzz.Timing.Loop.{
  goes_backward, check_order, get_next_event, event_offset, adjust, adjust_relative_event_times,
  turn, Actions, execute, Ending, run_events,
}
use tcp_fuzz.Timing.Turns.{InOrder, start}
use tcp_fuzz.Timing.Order.{IsReturning, run_events_iff}
use tcp_fuzz.Timing.Burst.{sums, burst_times}

abbrev inbound : TimeType → ℕ → Event
inbound kind time = record {
  time_usecs = pos time;
  time_usecs_end = negsuc 0;
  offset_usecs = pos 0;
  time_type = kind;
  type = EventType.packet_event Direction.inbound;
}

abbrev first : Event
first = inbound TimeType.absolute_time 0

abbrev rest : List Event
rest = inbound TimeType.relative_time 5 ∷ inbound TimeType.relative_time 7 ∷ []

-- Every reading of the clock is late.
abbrev clock : ℕ → ℤ
clock n = pos 9000

abbrev returning : Actions
returning = record {
  is_wire_client = false;
  wire_client_next_event = λ n s. true;
  run_local_packet_event = λ n s. true;
  run_system_call_event = λ n s. true;
  run_command_event = λ n s. true;
  run_code_event = λ n s. true;
}

is_returning : IsReturning returning
is_returning = record {
  notified = λ n s. refl;
  packets = λ n s. refl;
  syscalls = λ n s. refl;
  commands = λ n s. refl;
  codes = λ n s. refl;
}

-- Packets that come after the tolerance end the program.
abbrev punctual : Actions
punctual = record returning {
  run_local_packet_event = λ n s. elim s.event [
    | none ↦ true
    | some event ↦ verify_time s event.time_type event.time_usecs event.time_usecs_end (clock n)
  ];
}

abbrev state : State
state = record (start 4 (pos 1000) []) { script_start_time_usecs = pos 0 }

on_time : verify_time state TimeType.absolute_time (pos 50) (negsuc 0) (pos 1054) ≡ true
unfolding verify_time in_range ◌+ℤ◌ ◌-ℤ◌
on_time = refl

too_late : verify_time state TimeType.absolute_time (pos 50) (negsuc 0) (pos 1055) ≡ false
unfolding verify_time in_range ◌+ℤ◌ ◌-ℤ◌
too_late = refl

verify_time_iff_example :
    (verify_time state TimeType.absolute_range_time (pos 50) (pos 60) (pos 1064) ≡ true)
    ↔ IsOnTime state TimeType.absolute_range_time (pos 50) (pos 60) (pos 1064)
verify_time_iff_example =
    verify_time_iff state TimeType.absolute_range_time (pos 50) (pos 60) (pos 1064)

-- A script that goes back in time.
backward :
    run_events 3 returning clock (
      start 4
        (pos 1000)
        (first ∷ inbound TimeType.absolute_time 8 ∷ inbound TimeType.absolute_time 7 ∷ []))
    ≡ some Ending.stopped
unfolding run_events turn get_next_event check_order goes_backward adjust_relative_event_times
    adjust event_offset ◌+ℤ◌ ◌-ℤ◌
backward = refl

run_events_iff_example :
    ((executed : List Event) × (run_events 4 returning clock (start 4 (pos 1000) (first ∷ rest))
        ≡ some (Ending.finished executed)))
    ↔ ((first.time_usecs ≡ pos 0) × InOrder first rest)
run_events_iff_example = run_events_iff returning clock 4 (pos 1000) first rest is_returning

late : run_events 4 punctual clock (start 4 (pos 1000) (first ∷ rest)) ≡ some Ending.halted
unfolding run_events turn get_next_event check_order goes_backward adjust_relative_event_times
    adjust event_offset execute verify_time in_range ◌+ℤ◌ ◌-ℤ◌
late = refl

burst_times_example :
    (executed : List Event) × (run_events 4 returning clock (start 4 (pos 1000) (first ∷ rest))
      ≡ some (Ending.finished executed))
    × (map (λ (event : Event). event.time_usecs) executed ≡ pos 0 ∷ sums (pos 0) rest)
burst_times_example =
    burst_times returning clock 4 (pos 1000) first rest is_returning refl refl refl
      ((refl, refl), ((refl, refl), tt))

sums_of_rest : sums (pos 0) rest ≡ pos 5 ∷ pos 12 ∷ []
unfolding sums ◌+ℤ◌
sums_of_rest = refl
