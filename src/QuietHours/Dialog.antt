-- ===== src/QuietHours/Dialog.antt =====
-- QuietHoursDialog of internal/site/src/components/routes/settings/quiet-hours.tsx: the form that an
-- existing window fills, and what is sent when it is submitted.
pub mod Reopening
use bezel_custom.Prelude.{
  ℕ, ◌+◌, ◌-◌, ◌*◌, ◌/◌, ◌%◌, ◌<◌, ◌≡◌, refl, String, Bool, true, false, Option, none, some, arith,
  str_eq, eq_iff, ap, ◌∙◌, sym, subst, if◌then◌else◌, not,
}
use bezel_custom.QuietHours.{Kind, one_time, daily}

-- The time zone of the browser, over minutes since the epoch, which is the start of a day of UTC:
-- by how much local time is ahead of a minute of UTC, plus a day, and which minute of UTC a local
-- one is read as.
pub record Zone : Type 0 where
  pub ahead : ℕ → ℕ
  pub utc : ℕ → ℕ

-- A window as the hub has it: "" for no system, dates in milliseconds.
pub record Window : Type 0 where
  pub system : String
  pub kind : Kind
  pub start : ℕ
  pub end : Option ℕ

-- The state of the dialog. Dates and times are local minutes, since the epoch and of the day; an
-- empty field is none.
pub record Form : Type 0 where
  pub selected_system : String
  pub is_global : Bool
  pub window_type : Kind
  pub start_date_time : Option ℕ
  pub end_date_time : Option ℕ
  pub start_time : Option ℕ
  pub end_time : Option ℕ

-- What is sent, beside the user.
pub record Data : Type 0 where
  pub system : Option String
  pub kind : Kind
  pub start : ℕ
  pub end : Option ℕ

-- `toTimeString().slice(0, 5)`
unfoldable pub time_text : Zone → ℕ → ℕ
time_text zone date = (date / 60_000 + zone.ahead (date / 60_000)) % 1440

unfoldable pub format_date_time_local : Zone → ℕ → ℕ
format_date_time_local zone date = date / 60_000 + zone.ahead (date / 60_000) - 1440

abbrev pub map_option : (ℕ → ℕ) → Option ℕ → Option ℕ
map_option f none = none
map_option f (some n) = some (f n)

abbrev pub filled : Window → Form → Form
filled w form = record form {
  selected_system = w.system;
  is_global = str_eq w.system "";
  window_type = w.kind;
}

-- The effect that runs with a window to edit, by its type.
unfoldable pub load : Zone → Kind → Window → Form → Form
unfolding time_text format_date_time_local
load zone daily w form = record (filled w form) {
  start_time = some (time_text zone w.start);
  end_time = map_option (time_text zone) w.end;
}
load zone one_time w form = record (filled w form) {
  start_date_time = some (format_date_time_local zone w.start);
  end_date_time = map_option (format_date_time_local zone) w.end;
}

-- The form of a new window at a date: from noon of the local day to one o'clock.
pub new_form : Zone → ℕ → Form
new_form zone now =
    let today : ℕ = (now / 60_000 + zone.ahead (now / 60_000)) / 1440 * 1440 - 1440 in
    record {
      selected_system = "";
      is_global = true;
      window_type = one_time;
      start_date_time = some (today + 720);
      end_date_time = some (today + 780);
      start_time = some 720;
      end_time = some 780;
    }

-- the first minute of 2000-01-01
abbrev pub day_2000 : ℕ
day_2000 = 15_778_080

-- `toISOString()` of a local minute, in milliseconds
abbrev pub to_utc : Zone → ℕ → ℕ
to_utc zone l = zone.utc l * 60_000

abbrev pub daily_date : Zone → ℕ → ℕ
daily_date zone time = to_utc zone (day_2000 + time)

-- `isGlobal ? undefined : selectedSystem`
abbrev pub chosen : Form → Option String
chosen form = if form.is_global then none else some form.selected_system

abbrev pub with_start : Form → Option ℕ → Option ℕ → Option Data
with_start form none end = none
with_start form (some start) end =
    some (record { system = chosen form; kind = form.window_type; start = start; end = end })

-- handleSubmit up to the request: none where an empty start makes the conversion throw.
unfoldable pub submit_as : Zone → Kind → Form → Option Data
submit_as zone daily form =
    with_start form (map_option (daily_date zone) form.start_time)
      (map_option (daily_date zone) form.end_time)
submit_as zone one_time form =
    with_start form (map_option (to_utc zone) form.start_date_time)
      (map_option (to_utc zone) form.end_date_time)

unfoldable pub handle_submit : Zone → Form → Option Data
unfolding submit_as
handle_submit zone form = submit_as zone form.window_type form

abbrev pub system_or_none : Option String → String
system_or_none none = ""
system_or_none (some system) = system

-- A request that the hub accepts creates a window of its fields.
abbrev pub created : Data → Window
created d = record { system = system_or_none d.system; kind = d.kind; start = d.start; end = d.end }
