-- ===== src/QuietHours/Windows.antt =====
-- When a window is open.
use bezel_custom.Prelude.{
  ℕ, ◌+◌, ◌-◌, ◌/◌, ◌%◌, ◌≤◌, ◌<◌, ◌≡◌, ◌↔◌, String, arith, ltb, if◌then◌else◌, ap₂, ◌∙◌,
}
use bezel_custom.QuietHours.{
  one_time, daily, QuietHoursRecord, Clock, WindowState, active, past, inactive, within_day,
  within_dates, get_window_state, local_minutes, current_minutes, utc_minutes,
}

-- The minutes from a time of day to the next time that it is another.
abbrev pub until : ℕ → ℕ → ℕ
until from to = (to + (1440 - from % 1440)) % 1440

within_day_lem :
    (current from to : ℕ)
    → current < 1440
    → from < 1440
    → to < 1440
    → within_day current from to
      ≡ (if ltb (until from current) (until from to) then active else inactive)
unfolding within_day
within_day_lem current from to c f t = ground arith

until-shift :
    (zone from to : ℕ)
    → until ((from % 1440 + zone) % 1440) ((to % 1440 + zone) % 1440) ≡ until from to
until-shift zone from to = omega arith

until-local :
    (clock : Clock) (start : ℕ)
    → until (local_minutes clock start) (current_minutes clock)
      ≡ until (start / 60_000) (clock.now / 60_000)
unfolding local_minutes current_minutes utc_minutes
until-local clock start = omega arith

-- A daily window is active exactly when fewer minutes have passed since the minute of its last
-- start than lie between its start and its next end, by the UTC clock, whatever the time zone and
-- wherever midnight lies; it is inactive at any other time.
pub get_window_state-daily :
    (clock : Clock) (id : String) (start end : ℕ)
    → get_window_state clock (record { id = id; kind = daily; start = start; end = end }) ≡ (
        if ltb (until (start / 60_000) (clock.now / 60_000)) (until (start / 60_000) (end / 60_000))
        then active
        else inactive)
unfolding get_window_state local_minutes current_minutes utc_minutes
get_window_state-daily clock id start end =
    within_day_lem (current_minutes clock) (local_minutes clock start) (local_minutes clock end)
      (omega arith) (omega arith) (omega arith)
    ∙ ap₂ (λ passed long. if ltb passed long then active else inactive) (until-local clock start)
        (until-shift clock.ahead (start / 60_000) (end / 60_000))

-- Whether a one-time window is active, past or inactive.
abbrev pub Is : WindowState → ℕ → QuietHoursRecord → Type 0
Is active now r = (r.start ≤ now) × (now < r.end)
Is past now r = r.end ≤ now
Is inactive now r = now < r.start

-- A one-time window whose start is not after its end is active exactly from its start until before
-- its end, past exactly from its end on, and inactive exactly before its start.
pub get_window_state-one_time :
    (clock : Clock) (id : String) (start end : ℕ) (state : WindowState)
    → start ≤ end
    → get_window_state clock (record { id = id; kind = one_time; start = start; end = end }) ≡ state
      ↔ Is state clock.now (record { id = id; kind = one_time; start = start; end = end })
unfolding get_window_state within_dates
get_window_state-one_time clock id start end active le = (ground arith, ground arith)
get_window_state-one_time clock id start end past le = (ground arith, ground arith)
get_window_state-one_time clock id start end inactive le = (ground arith, ground arith)
