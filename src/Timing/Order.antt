-- ===== src/Timing/Order.antt =====
-- The loop over the events of a whole script: which scripts it runs to their end.
use tcp_fuzz.Prelude.{
  ℕ, suc, Bool, ◌||◌, not, true, false, Option, some, List, [], ◌∷◌, ◌≡◌, ◌≢◌, ◌↔◌, ◌⊎◌, false_true,
}
use tcp_fuzz.Prelude.{refl, sym, ap, ◌∙◌, length, Bool-cases, inl, inr}
use tcp_fuzz.Prelude.Int.{ℤ, pos, eqb_ℤ, eqb_ℤ_iff}
use tcp_fuzz.Timing.{EventType, Event, State}
use tcp_fuzz.Timing.Loop.{
  goes_backward, check_order, get_next_event, event_offset, adjust, adjust_relative_event_times,
  Turn, turn, Actions, run_event, execute, Ending, run_events, resume,
}
use tcp_fuzz.Timing.Turns.{
  InOrder, start, after, moved, goes_backward_iff, later_offset, turn_refused, turn_executed,
}

-- How the loop goes on behind an event, and that it ends.
Ends : Option Ending → Type 0 → ℕ → Type 0
Ends ending InOrder' count =
    (InOrder'
      × ((executed : List Event) × (ending ≡ some (Ending.finished executed))
          × (length executed ≡ count)))
    ⊎ ((¬ InOrder') × (ending ≡ some Ending.stopped))

-- No event ends the program or blocks for ever.
pub record IsReturning (actions : Actions) : Type 0 where
  pub notified : (n : ℕ) (state : State) → actions.wire_client_next_event n state ≡ true
  pub packets : (n : ℕ) (state : State) → actions.run_local_packet_event n state ≡ true
  pub syscalls : (n : ℕ) (state : State) → actions.run_system_call_event n state ≡ true
  pub commands : (n : ℕ) (state : State) → actions.run_command_event n state ≡ true
  pub codes : (n : ℕ) (state : State) → actions.run_code_event n state ≡ true

or_true : (b : Bool) → (b || true) ≡ true
or_true true = refl
or_true false = refl

run_event-IsReturning :
    (actions : Actions) (n : ℕ) (state : State) (type : EventType)
    → IsReturning actions
    → run_event actions n state type ≡ true
run_event-IsReturning actions n state (EventType.packet_event direction) h =
    rw (h.packets n state) (or_true actions.is_wire_client)
run_event-IsReturning actions n state (EventType.syscall_event end_usecs) h = h.syscalls n state
run_event-IsReturning actions n state EventType.command_event h = h.commands n state
run_event-IsReturning actions n state EventType.code_event h = h.codes n state

execute-IsReturning :
    (actions : Actions) (n : ℕ) (state : State) (event : Event)
    → IsReturning actions
    → execute actions n state event ≡ true
unfolding execute
execute-IsReturning actions n state event h =
    rw
      (
        h.notified n state,
        or_true (not actions.is_wire_client),
        run_event-IsReturning actions n state event.type h,
      )
      refl

pub run_step :
    (turns : ℕ) (actions : Actions) (clock : ℕ → ℤ) (state state' : State) (event : Event)
    → IsReturning actions
    → turn state (clock turns) ≡ some (Turn.executed event state')
    → run_events (suc turns) actions clock state
      ≡ resume event true (run_events turns actions clock state')
unfolding run_events
run_step turns actions clock state state' event returning h =
    rw (h, run_events, execute-IsReturning actions turns state' event returning) refl

run_failed :
    (turns : ℕ) (actions : Actions) (clock : ℕ → ℤ) (state : State)
    → turn state (clock turns) ≡ some Turn.failed
    → run_events (suc turns) actions clock state ≡ some Ending.stopped
unfolding run_events
run_failed turns actions clock state h = rw (h, run_events) refl

pub run_done :
    (actions : Actions) (clock : ℕ → ℤ) (state : State) (offset : ℤ) (event : Event)
    → run_events 1 actions clock (after state offset event []) ≡ some (Ending.finished [])
unfolding run_events turn get_next_event check_order
run_done actions clock state offset event = refl

run-Ends :
    (actions : Actions) (clock : ℕ → ℤ) (state : State) (offset : ℤ) (event : Event)
    (rest : List Event)
    → IsReturning actions
    → Ends
        (run_events (suc (length rest)) actions clock (after state offset event rest))
        (InOrder event rest)
        (length rest)
unfolding Ends InOrder
run-Ends actions clock state offset event [] returning =
    inl (tt, ([], run_done actions clock state offset event, refl))
run-Ends actions clock state offset event (next ∷ rest) returning =
    let now = clock (suc (length rest)) in
    let offset' = later_offset state offset now event next rest in
    let state' = moved state offset event next rest in
    elim (Bool-cases (goes_backward state' next)) [
      | inl back ↦ inr (
        λ order.
            false_true (sym ((goes_backward_iff state offset event next rest).1 order.0) ∙ back),
        run_failed (suc (length rest)) actions clock (after state offset event (next ∷ rest))
            (turn_refused state offset now event next rest back),
      )
      | inr forth ↦
          let run =
            run_step (suc (length rest)) actions clock (after state offset event (next ∷ rest))
              (after state' offset' next rest) (adjust offset' next) returning
              (turn_executed state offset now event next rest forth) in
          elim (run-Ends actions clock state' offset' next rest returning) [
            | inl (order, (executed, ran, count)) ↦ inl (
              ((goes_backward_iff state offset event next rest).0 forth, order),
              (adjust offset' next ∷ executed, rw (run, ran) refl, ap suc count),
            )
            | inr (disorder, stops) ↦ inr (λ order. disorder order.1, rw (run, stops) refl)
          ]
    ]

-- The state before the first event, and the state in which it is the current one.
abbrev pub first_state : ℕ → ℤ → Event → List Event → State
first_state tolerance live_start first rest = record (start tolerance live_start (first ∷ rest)) {
  event = some first;
  following = rest;
  script_start_time_usecs = first.time_usecs;
}

pub first_turn :
    (tolerance : ℕ) (live_start now : ℤ) (first : Event) (rest : List Event)
    → eqb_ℤ first.time_usecs (pos 0) ≡ true
    → let state = first_state tolerance live_start first rest in
      let offset = event_offset state now first in
      turn (start tolerance live_start (first ∷ rest)) now
      ≡ some (Turn.executed (adjust offset first) (after state offset first rest))
unfolding turn get_next_event check_order adjust_relative_event_times goes_backward
first_turn tolerance live_start now first rest h = rw (h, turn) refl

first_failed :
    (tolerance : ℕ) (live_start now : ℤ) (first : Event) (rest : List Event)
    → eqb_ℤ first.time_usecs (pos 0) ≡ false
    → turn (start tolerance live_start (first ∷ rest)) now ≡ some Turn.failed
unfolding turn get_next_event
first_failed tolerance live_start now first rest h = rw (h, turn) refl

script-Ends :
    (actions : Actions) (clock : ℕ → ℤ) (tolerance : ℕ) (live_start : ℤ) (first : Event)
    (rest : List Event)
    → IsReturning actions
    → Ends
        (run_events
          (suc (suc (length rest)))
          actions
          clock
          (start tolerance live_start (first ∷ rest)))
        ((first.time_usecs ≡ pos 0) × InOrder first rest)
        (suc (length rest))
unfolding Ends
script-Ends actions clock tolerance live_start first rest returning =
    let now = clock (suc (length rest)) in
    let state = first_state tolerance live_start first rest in
    let before = start tolerance live_start (first ∷ rest) in
    let offset = event_offset state now first in
    elim (Bool-cases (eqb_ℤ first.time_usecs (pos 0))) [
      | inr late ↦ inr (
        λ h. false_true (sym late ∙ (eqb_ℤ_iff first.time_usecs (pos 0)).1 h.0),
        run_failed (suc (length rest)) actions clock before
            (first_failed tolerance live_start now first rest late),
      )
      | inl zeroth ↦
          let run =
            run_step (suc (length rest)) actions clock before (after state offset first rest)
              (adjust offset first) returning
              (first_turn tolerance live_start now first rest zeroth) in
          elim (run-Ends actions clock state offset first rest returning) [
            | inl (order, (executed, ran, count)) ↦ inl (
              ((eqb_ℤ_iff first.time_usecs (pos 0)).0 zeroth, order),
              (adjust offset first ∷ executed, rw (run, ran) refl, ap suc count),
            )
            | inr (disorder, stops) ↦ inr (λ h. disorder h.1, rw (run, stops) refl)
          ]
    ]

finished-stopped : (events : List Event) → some (Ending.finished events) ≢ some Ending.stopped
finished-stopped events e = cc

-- If no event of a script ends the program or blocks for ever, then for a script of at least one event the
-- loop of run_script runs all events within one turn more than there are events if and only
-- if its first event is at time 0 and no event with an absolute time is earlier than the event right
-- before it, if that has an absolute time too. What the clock shows as relative times are taken from
-- it does not matter.
pub run_events_iff :
    (actions : Actions) (clock : ℕ → ℤ) (tolerance : ℕ) (live_start : ℤ) (first : Event)
    (rest : List Event)
    → IsReturning actions
    → ((executed : List Event) × (run_events
            (suc (suc (length rest)))
            actions
            clock
            (start tolerance live_start (first ∷ rest))
          ≡ some (Ending.finished executed)))
      ↔ ((first.time_usecs ≡ pos 0) × InOrder first rest)
unfolding Ends
run_events_iff actions clock tolerance live_start first rest returning =
    elim (script-Ends actions clock tolerance live_start first rest returning) [
      | inl (order, (executed, ran, count)) ↦ (λ h. order, λ h. (executed, ran))
      | inr (disorder, stops) ↦
          (λ h. absurd (finished-stopped h.0 (sym h.1 ∙ stops)), λ h. absurd (disorder h))
    ]
