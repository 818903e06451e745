-- ===== src/Timing/Burst.antt =====
-- Inbound packets one right after the other, each at a time relative to the one before.
use tcp_fuzz.Prelude.{ℕ, suc, some, List, [], ◌∷◌, ◌≡◌, refl, ap, ◌∙◌}
use tcp_fuzz.Prelude.{All, map, length, arith}
use tcp_fuzz.Prelude.Int.{ℤ, pos, ◌+ℤ◌, eqb_ℤ_iff}
use tcp_fuzz.Packet.{Direction}
use tcp_fuzz.Timing.{TimeType, EventType, Event, State}
use tcp_fuzz.Timing.Loop.{event_offset, adjust, Actions, Ending, run_events}
use tcp_fuzz.Timing.Turns.{
  Precedes, start, after, moved, later_offset, goes_backward_iff, turn_executed,
}
use tcp_fuzz.Timing.Order.{first_state, IsReturning, run_step, run_done, first_turn}

abbrev pub IsInbound : Event → Type 0
IsInbound event = event.type ≡ EventType.packet_event Direction.inbound

abbrev pub IsRelativeInbound : Event → Type 0
IsRelativeInbound event = (event.time_type ≡ TimeType.relative_time) × IsInbound event

-- Each time on top of the one before.
unfoldable pub sums : ℤ → List Event → List ℤ
sums time [] = []
sums time (event ∷ rest) = (event.time_usecs +ℤ time) ∷ sums (event.time_usecs +ℤ time) rest

-- Adjusting keeps an inbound packet one.
adjust-IsInbound : (offset : ℤ) (event : Event) → IsInbound event → IsInbound (adjust offset event)
unfolding adjust
adjust-IsInbound offset event h = ground arith

-- The time of a packet behind an inbound one is taken from the time of that.
anchored_offset :
    (state : State) (offset now : ℤ) (event next : Event) (rest : List Event)
    → IsInbound event
    → IsInbound next
    → later_offset state offset now event next rest ≡ (adjust offset event).time_usecs
unfolding event_offset
anchored_offset state offset now event next rest h k =
    let same = adjust-IsInbound offset event h in rw (same, k) refl

relative_time :
    (offset : ℤ) (event : Event)
    → event.time_type ≡ TimeType.relative_time
    → (adjust offset event).time_usecs ≡ event.time_usecs +ℤ offset
unfolding adjust
relative_time offset event h = ground arith

relative-Precedes :
    (event next : Event) → next.time_type ≡ TimeType.relative_time → Precedes event next
unfolding Precedes
relative-Precedes event next h = ground arith

abbrev times : List Event → List ℤ
times = map (λ (event : Event). event.time_usecs)

-- The events behind an inbound packet.
burst_behind :
    (actions : Actions) (clock : ℕ → ℤ) (state : State) (offset : ℤ) (event : Event)
    (rest : List Event)
    → IsReturning actions
    → IsInbound event
    → All IsRelativeInbound rest
    → (executed : List Event) × (run_events
          (suc (length rest))
          actions
          clock
          (after state offset event rest)
        ≡ some (Ending.finished executed))
      × (times executed ≡ sums (adjust offset event).time_usecs rest)
unfolding sums
burst_behind actions clock state offset event [] returning h all =
    ([], run_done actions clock state offset event, refl)
burst_behind actions clock state offset event (next ∷ rest) returning h all =
    let now = clock (suc (length rest)) in
    let offset' = later_offset state offset now event next rest in
    let state' = moved state offset event next rest in
    let ((relative, inbound), later) = all in
    let (executed, ran, at) =
      burst_behind actions clock state' offset' next rest returning inbound later in
    let forth =
      (goes_backward_iff state offset event next rest).1 (relative-Precedes event next relative) in
    let run =
      run_step (suc (length rest)) actions clock (after state offset event (next ∷ rest))
        (after state' offset' next rest) (adjust offset' next) returning
        (turn_executed state offset now event next rest forth) in
    let time : (adjust offset' next).time_usecs
        ≡ next.time_usecs +ℤ (adjust offset event).time_usecs =
      relative_time offset' next relative
      ∙ ap (λ (o : ℤ). next.time_usecs +ℤ o)
          (anchored_offset state offset now event next rest h inbound) in
    (adjust offset' next ∷ executed, rw (run, ran) refl, rw (at, time) refl)

first_time :
    (offset : ℤ) (event : Event)
    → event.time_type ≡ TimeType.absolute_time
    → event.time_usecs ≡ pos 0
    → (adjust offset event).time_usecs ≡ pos 0
unfolding adjust
first_time offset event h zeroth = rw (h) zeroth

-- If no event ends the program or blocks for ever, a script of inbound packets, the first at the absolute
-- time 0 and every other one at a relative time, is run to its end, and whatever the clock shows when a
-- packet's turn comes, each packet has the time of the one before plus its own: no delay of the run
-- adds up.
pub burst_times :
    (actions : Actions) (clock : ℕ → ℤ) (tolerance : ℕ) (live_start : ℤ) (first : Event)
    (rest : List Event)
    → IsReturning actions
    → first.time_type ≡ TimeType.absolute_time
    → first.time_usecs ≡ pos 0
    → IsInbound first
    → All IsRelativeInbound rest
    → (executed : List Event) × (run_events
          (suc (suc (length rest)))
          actions
          clock
          (start tolerance live_start (first ∷ rest))
        ≡ some (Ending.finished executed))
      × (times executed ≡ pos 0 ∷ sums (pos 0) rest)
burst_times actions clock tolerance live_start first rest returning absolute zeroth inbound all =
    let now = clock (suc (length rest)) in
    let state = first_state tolerance live_start first rest in
    let offset = event_offset state now first in
    let (executed, ran, at) =
      burst_behind actions clock state offset first rest returning inbound all in
    let run =
      run_step (suc (length rest)) actions clock (start tolerance live_start (first ∷ rest))
        (after state offset first rest) (adjust offset first) returning
        (first_turn tolerance live_start now first rest
          ((eqb_ℤ_iff first.time_usecs (pos 0)).1 zeroth)) in
    (
      adjust offset first ∷ executed,
      rw (run, ran) refl,
      rw (at, first_time offset first absolute zeroth) refl,
    )
