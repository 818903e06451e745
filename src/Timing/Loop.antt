-- ===== src/Timing/Loop.antt =====
-- run.c: get_next_event, adjust_relative_event_times, and the loop of run_script around them. What an
-- event does leaves the times of the events alone; whether it returns is a parameter.
use tcp_fuzz.Prelude.{
  ℕ, zero, suc, ◌&&◌, ◌||◌, not, Bool, true, false, Option, none, some, List, [], ◌∷◌,
  if◌then◌else◌,
}
use tcp_fuzz.Prelude.Int.{ℤ, pos, ◌+ℤ◌, ◌-ℤ◌, ltb_ℤ, eqb_ℤ}
use tcp_fuzz.Timing.{
  TimeType, EventType, Event, State, is_event_time_absolute, is_event_start_time_anchored,
  is_blocking_syscall,
}

-- Whether the time goes backward from the event before.
unfoldable pub goes_backward : State → Event → Bool
goes_backward state event = elim state.last_event [
  | none ↦ false
  | some last ↦
      is_event_time_absolute last
      && (is_event_time_absolute event && ltb_ℤ event.time_usecs state.script_last_time_usecs)
]

-- The test at the end of get_next_event, of the event that is now the current one.
unfoldable pub check_order : State → Bool × State
unfolding goes_backward
check_order state = elim state.event [
  | none ↦ (true, state)
  | some event ↦ (not (goes_backward state event), state)
]

-- The current event becomes the one behind it.
abbrev pub next_event : Event → State → State
next_event event state = elim state.following [
  | [] ↦ record state {
    script_last_time_usecs = event.time_usecs;
    last_event = some event;
    event = none;
  }
  | next ∷ following ↦ record state {
    script_last_time_usecs = event.time_usecs;
    last_event = some event;
    event = some next;
    following = following;
  }
]

-- Whether the answer is STATUS_OK, and the state afterwards. `none` is a NULL pointer that is read: a
-- script without any event. Before the first event `following` is the event list of the script.
unfoldable pub get_next_event : State → Option (Bool × State)
unfolding check_order
get_next_event state = elim state.event [
  | some event ↦ some (check_order (next_event event state))
  | none ↦ elim state.following [
    | [] ↦ none
    | first ∷ following ↦
        let state' = record state {
          event = some first;
          following = following;
          script_start_time_usecs = first.time_usecs;
        } in
        if eqb_ℤ first.time_usecs (pos 0) then some (check_order state') else some (false, state')
  ]
]

-- The time from which that of a relative event is taken; `now` is what now_usecs returns.
unfoldable pub event_offset : State → ℤ → Event → ℤ
event_offset state now event =
    let elapsed = now -ℤ state.live_start_time_usecs in
    elim state.last_event [
      | none ↦ elapsed
      | some last ↦
          if is_event_start_time_anchored last && is_event_start_time_anchored event
          then last.time_usecs
          else elapsed
    ]

abbrev pub shift_syscall : ℤ → EventType → EventType
shift_syscall offset (EventType.syscall_event end_usecs) =
    EventType.syscall_event
      (if is_blocking_syscall end_usecs then end_usecs +ℤ offset else end_usecs)
shift_syscall offset type = type

-- A change of the current event, by the kind of its time.
unfoldable pub adjust : ℤ → Event → Event
adjust offset event = elim event.time_type [
  | TimeType.any_time ↦ record event {
    offset_usecs = offset;
    time_usecs = event.time_usecs +ℤ offset;
  }
  | TimeType.relative_time ↦ record event {
    offset_usecs = offset;
    time_usecs = event.time_usecs +ℤ offset;
    type = shift_syscall offset event.type;
  }
  | TimeType.relative_range_time ↦ record event {
    offset_usecs = offset;
    time_usecs = event.time_usecs +ℤ offset;
    time_usecs_end = event.time_usecs_end +ℤ offset;
  }
  | _ ↦ event
]

unfoldable pub adjust_relative_event_times : State → ℤ → Event → Event
unfolding adjust event_offset
adjust_relative_event_times state now event = adjust (event_offset state now event) event

-- One turn of the loop. `executed` is the event that is run, with its times adjusted.
pub data Turn : Type 0 where
  failed : Turn
  done : Turn
  executed : Event → State → Turn

unfoldable pub turn : State → ℤ → Option Turn
unfolding get_next_event adjust_relative_event_times
turn state now = elim (get_next_event state) [
  | none ↦ none
  | some result ↦
      if result.0
      then (elim result.1.event [
        | none ↦ some Turn.done
        | some event ↦
            let event' = adjust_relative_event_times result.1 now event in
            some (Turn.executed event' (record result.1 { event = some event' }))
      ])
      else some Turn.failed
]

-- What the calls of the loop do with an event, by the turns that are left and the state with the event as
-- the current one: `true` is a call that returns, `false` one that ends the program, as
-- check_event_time and every error of an event do, or that does not come back.
pub record Actions : Type 0 where
  pub is_wire_client : Bool
  pub wire_client_next_event : ℕ → State → Bool
  pub run_local_packet_event : ℕ → State → Bool
  pub run_system_call_event : ℕ → State → Bool
  pub run_command_event : ℕ → State → Bool
  pub run_code_event : ℕ → State → Bool

-- The switch over the types of events.
abbrev pub run_event : Actions → ℕ → State → EventType → Bool
run_event actions n state (EventType.packet_event direction) =
    actions.is_wire_client || actions.run_local_packet_event n state
run_event actions n state (EventType.syscall_event end_usecs) =
    actions.run_system_call_event n state
run_event actions n state EventType.command_event = actions.run_command_event n state
run_event actions n state EventType.code_event = actions.run_code_event n state

unfoldable pub execute : Actions → ℕ → State → Event → Bool
execute actions n state event =
    (not actions.is_wire_client || actions.wire_client_next_event n state)
    && run_event actions n state event.type

-- How a script ends: with all of its events run, in this order, or with an error of get_next_event, or
-- with an event that does not return, or not within the turns given. `clock` is what now_usecs
-- returns, turn by turn.
pub data Ending : Type 0 where
  finished : List Event → Ending
  stopped : Ending
  halted : Ending
  unfinished : Ending

abbrev pub behind : Event → Ending → Ending
behind event (Ending.finished events) = Ending.finished (event ∷ events)
behind event ending = ending

-- The loop behind an event, which returned or did not.
abbrev pub resume : Event → Bool → Option Ending → Option Ending
resume event false rest = some Ending.halted
resume event true none = none
resume event true (some ending) = some (behind event ending)

unfoldable pub run_events : ℕ → Actions → (ℕ → ℤ) → State → Option Ending
unfolding turn execute
run_events zero actions clock state = some Ending.unfinished
run_events (suc turns) actions clock state = elim (turn state (clock turns)) [
  | none ↦ none
  | some Turn.failed ↦ some Ending.stopped
  | some Turn.done ↦ some (Ending.finished [])
  | some (Turn.executed event state') ↦
      resume event (execute actions turns state' event) (run_events turns actions clock state')
]
