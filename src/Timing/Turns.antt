-- ===== src/Timing/Turns.antt =====
-- The turns of the loop over the events: when one is an error, and what it makes of the state.
use tcp_fuzz.Prelude.{ℕ, true, false, none, some, List, [], ◌∷◌, ◌≡◌, ◌↔◌, ◌⊎◌}
use tcp_fuzz.Prelude.{arith, refl}
use tcp_fuzz.Prelude.Int.{ℤ, pos, ◌≤ℤ◌, ltb_ℤ_iff}
use tcp_fuzz.Timing.{Event, State, is_event_time_absolute}
use tcp_fuzz.Timing.Loop.{
  goes_backward, check_order, get_next_event, event_offset, adjust, adjust_relative_event_times,
  Turn, turn,
}

-- Of two events with absolute times the second is not earlier.
unfoldable pub Precedes : Event → Event → Type 0
Precedes a b =
    (is_event_time_absolute a ≡ false)
    ⊎ (is_event_time_absolute b ≡ false)
    ⊎ (a.time_usecs ≤ℤ b.time_usecs)

-- Each event precedes the next one.
unfoldable pub InOrder : Event → List Event → Type 0
InOrder event [] = Unit {0}
InOrder event (next ∷ rest) = Precedes event next × InOrder next rest

-- Before the loop.
abbrev pub start : ℕ → ℤ → List Event → State
start tolerance live_start events = record {
  tolerance_usecs = tolerance;
  script_start_time_usecs = pos 0;
  script_last_time_usecs = pos 0;
  live_start_time_usecs = live_start;
  event = none;
  last_event = none;
  following = events;
}

-- An event was run, with its times adjusted.
abbrev pub after : State → ℤ → Event → List Event → State
after state offset event rest = record state {
  event = some (adjust offset event);
  following = rest;
}

-- The state in which the event behind is the current one.
abbrev pub moved : State → ℤ → Event → Event → List Event → State
moved state offset event next rest = record state {
  script_last_time_usecs = (adjust offset event).time_usecs;
  last_event = some (adjust offset event);
  event = some next;
  following = rest;
}

-- Adjusting leaves absolute times alone.
pub goes_backward_iff :
    (state : State) (offset : ℤ) (event next : Event) (rest : List Event)
    → (goes_backward (moved state offset event next rest) next ≡ false) ↔ Precedes event next
unfolding goes_backward adjust Precedes
goes_backward_iff state offset event next rest =
    ground (arith, ltb_ℤ_iff next.time_usecs event.time_usecs)

abbrev pub later_offset : State → ℤ → ℤ → Event → Event → List Event → ℤ
later_offset state offset now event next rest =
    event_offset (moved state offset event next rest) now next

pub turn_refused :
    (state : State) (offset now : ℤ) (event next : Event) (rest : List Event)
    → goes_backward (moved state offset event next rest) next ≡ true
    → turn (after state offset event (next ∷ rest)) now ≡ some Turn.failed
unfolding turn get_next_event check_order
turn_refused state offset now event next rest h = rw (h) refl

pub turn_executed :
    (state : State) (offset now : ℤ) (event next : Event) (rest : List Event)
    → goes_backward (moved state offset event next rest) next ≡ false
    → let offset' = later_offset state offset now event next rest in
      turn (after state offset event (next ∷ rest)) now
      ≡ some (
          Turn.executed
            (adjust offset' next)
            (after (moved state offset event next rest) offset' next rest))
unfolding turn get_next_event check_order adjust_relative_event_times
turn_executed state offset now event next rest h = rw (h) refl
