-- ===== src/Timing/Tolerance.antt =====
-- run.c: verify_time, which compares the time of something that happened with that of the script.
use tcp_fuzz.Prelude.{ℕ, ◌||◌, not, Bool, true, ◌≡◌, ◌↔◌, arith}
use tcp_fuzz.Prelude.Int.{ℤ, pos, ◌+ℤ◌, ◌-ℤ◌, ◌≤ℤ◌, ltb_ℤ, int_laws, +ℤ_parts, -ℤ_parts}
use tcp_fuzz.Timing.{TimeType, State, script_time_to_live_time_usecs}

-- Whether `actual` is in a range, on either side of which the tolerance is added.
unfoldable pub in_range : ℕ → ℤ → ℤ → ℤ → Bool
in_range tolerance_usecs first last actual =
    not (ltb_ℤ actual (first -ℤ pos tolerance_usecs) || ltb_ℤ (last +ℤ pos tolerance_usecs) actual)

-- `true` is STATUS_OK.
unfoldable pub verify_time : State → TimeType → ℤ → ℤ → ℤ → Bool
unfolding in_range
verify_time state time_type script_usecs script_usecs_end live_usecs =
    let expected_usecs = script_usecs -ℤ state.script_start_time_usecs in
    let expected_usecs_end = script_usecs_end -ℤ state.script_start_time_usecs in
    let actual_usecs = live_usecs -ℤ state.live_start_time_usecs in
    elim time_type [
      | TimeType.any_time ↦ true
      | TimeType.absolute_range_time ↦
          in_range state.tolerance_usecs expected_usecs expected_usecs_end actual_usecs
      | TimeType.relative_range_time ↦
          in_range state.tolerance_usecs expected_usecs expected_usecs_end actual_usecs
      | _ ↦ in_range state.tolerance_usecs expected_usecs expected_usecs actual_usecs
    ]

-- `live` is at most `tolerance` before the first time of the script and behind the last, both as times
-- of the clock.
abbrev pub IsWithin : State → ℤ → ℤ → ℤ → Type 0
IsWithin state first last live =
    (script_time_to_live_time_usecs state first ≤ℤ live +ℤ pos state.tolerance_usecs)
    × (live ≤ℤ script_time_to_live_time_usecs state last +ℤ pos state.tolerance_usecs)

in_range_iff :
    (tolerance : ℕ) (first last actual : ℤ)
    → (in_range tolerance first last actual ≡ true)
      ↔ ((first ≤ℤ actual +ℤ pos tolerance) × (actual ≤ℤ last +ℤ pos tolerance))
unfolding in_range
in_range_iff tolerance first last actual = ground (
  arith,
  -ℤ_parts first (pos tolerance),
  +ℤ_parts last (pos tolerance),
  +ℤ_parts actual (pos tolerance),
)

from_start_left :
    (first start live begin tolerance : ℤ)
    → (first -ℤ start ≤ℤ (live -ℤ begin) +ℤ tolerance)
      ↔ (begin +ℤ (first -ℤ start) ≤ℤ live +ℤ tolerance)
from_start_left first start live begin tolerance = (λ h. omega int_laws, λ h. omega int_laws)

from_start_right :
    (last start live begin tolerance : ℤ)
    → (live -ℤ begin ≤ℤ (last -ℤ start) +ℤ tolerance)
      ↔ (live ≤ℤ begin +ℤ (last -ℤ start) +ℤ tolerance)
from_start_right last start live begin tolerance = (λ h. omega int_laws, λ h. omega int_laws)

-- The same, with all times taken from the start.
shifted_iff :
    (state : State) (first last live : ℤ)
    → (in_range state.tolerance_usecs
          (first -ℤ state.script_start_time_usecs)
          (last -ℤ state.script_start_time_usecs)
          (live -ℤ state.live_start_time_usecs)
        ≡ true)
      ↔ IsWithin state first last live
unfolding script_time_to_live_time_usecs
shifted_iff state first last live =
    let start = state.script_start_time_usecs in
    let begin = state.live_start_time_usecs in
    let within =
      in_range_iff state.tolerance_usecs (first -ℤ start) (last -ℤ start) (live -ℤ begin) in
    let left = from_start_left first start live begin (pos state.tolerance_usecs) in
    let right = from_start_right last start live begin (pos state.tolerance_usecs) in
    (λ h. let (a, b) = within.0 h in (left.0 a, right.0 b), λ h. within.1 (left.1 h.0, right.1 h.1))

-- When an event is accepted, by the kind of its time.
pub IsOnTime : State → TimeType → ℤ → ℤ → ℤ → Type 0
IsOnTime state TimeType.any_time first last live = Unit {0}
IsOnTime state TimeType.absolute_range_time first last live = IsWithin state first last live
IsOnTime state TimeType.relative_range_time first last live = IsWithin state first last live
IsOnTime state TimeType.absolute_time first last live = IsWithin state first first live
IsOnTime state TimeType.relative_time first last live = IsWithin state first first live

-- verify_time answers STATUS_OK if and only if the kind of the time is "any", or what happened did so no
-- earlier than the first time of the script and no later than the last one, both as times of the clock
-- and give or take the tolerance. The last time is the first one unless the script gives a range.
pub verify_time_iff :
    (state : State) (time_type : TimeType) (first last live : ℤ)
    → (verify_time state time_type first last live ≡ true)
      ↔ IsOnTime state time_type first last live
unfolding verify_time IsOnTime
verify_time_iff state TimeType.any_time first last live = ground arith
verify_time_iff state TimeType.absolute_range_time first last live =
    shifted_iff state first last live
verify_time_iff state TimeType.relative_range_time first last live =
    shifted_iff state first last live
verify_time_iff state TimeType.absolute_time first last live = shifted_iff state first first live
verify_time_iff state TimeType.relative_time first last live = shifted_iff state first first live
