-- ===== src/QuietHours.antt =====
-- internal/site/src/components/routes/settings/quiet-hours.tsx: the list of windows in which no
-- notification is sent, and whether a window is open now.
pub mod Windows
pub mod Dialog
pub mod Subscription
mod Tests
use bezel_custom.Prelude.{
  ℕ, ◌+◌, ◌/◌, ◌%◌, String, Bool, not, List, [], ◌∷◌, map, str_eq, leb, ltb, ◌||◌, ◌&&◌,
  if◌then◌else◌, keep,
}

pub data Kind : Type 0 where
  one_time daily : Kind

-- A date is its milliseconds since the epoch, which is the start of a day of UTC.
pub record QuietHoursRecord : Type 0 where
  pub id : String
  pub kind : Kind
  pub start : ℕ
  pub end : ℕ

pub data Action : Type 0 where
  create update delete : Action

-- What the subscription does to the list, over `setData`.
pub on_event : Action → QuietHoursRecord → List QuietHoursRecord → List QuietHoursRecord
on_event create record' current = record' ∷ current
on_event update record' current = map (λ r. if str_eq r.id record'.id then record' else r) current
on_event delete record' current = keep (λ r. not (str_eq r.id record'.id)) current

-- The clock of the browser: a date, and the time zone as the minutes that its local time is ahead
-- of UTC, plus a day, so that zones behind UTC have a number too. It is 1440 less `getTimezoneOffset()`.
pub record Clock : Type 0 where
  pub now : ℕ
  pub ahead : ℕ

-- `getUTCHours() * 60 + getUTCMinutes()`
pub utc_minutes : ℕ → ℕ
utc_minutes date = date / 60_000 % 1440

-- `getHours() * 60 + getMinutes()`
pub current_minutes : Clock → ℕ
current_minutes clock = (clock.now / 60_000 + clock.ahead) % 1440

-- `(minutes - offset + 1440) % 1440`
pub local_minutes : Clock → ℕ → ℕ
unfolding utc_minutes
local_minutes clock date = (utc_minutes date + clock.ahead) % 1440

pub data WindowState : Type 0 where
  active past inactive : WindowState

pub within_day : ℕ → ℕ → ℕ → WindowState
within_day current from to =
    if leb from to
    then (if leb from current && ltb current to then active else inactive)
    else (if leb from current || ltb current to then active else inactive)

pub within_dates : ℕ → ℕ → ℕ → WindowState
within_dates now from to =
    if leb from now && ltb now to then active else if leb to now then past else inactive

-- getWindowState
pub get_window_state : Clock → QuietHoursRecord → WindowState
unfolding within_day within_dates local_minutes current_minutes
get_window_state clock record' = elim record'.kind [
  | daily ↦
      within_day (current_minutes clock) (local_minutes clock record'.start)
        (local_minutes clock record'.end)
  | one_time ↦ within_dates clock.now record'.start record'.end
]
