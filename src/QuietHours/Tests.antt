-- ===== src/QuietHours/Tests.antt =====
-- Quiet hours at concrete inputs.
use bezel_custom.Prelude.{◌-◌, true, false, none, some, arith, ◌/◌, ◌≡◌, refl, ltb, if◌then◌else◌}
use bezel_custom.QuietHours.{
  one_time, daily, QuietHoursRecord, Clock, active, inactive, get_window_state,
}
use bezel_custom.QuietHours.Windows.{until, get_window_state-daily}
use bezel_custom.QuietHours.Dialog.{Zone, Form, handle_submit, submit_as}
use bezel_custom.QuietHours.Dialog.Reopening.{Reopens, handle_submit-Reopens}

-- A quarter to one, an hour ahead of UTC, on a later day.
abbrev night : Clock
night = record { now = 949_500_000; ahead = 1500 }

-- 22:00 to 02:00 UTC
abbrev nightly : QuietHoursRecord
nightly = record { id = "n"; kind = daily; start = 79_200_000; end = 7_200_000 }

abbrev once : QuietHoursRecord
once = record { id = "o"; kind = one_time; start = 864_000_000; end = 867_600_000 }

open_past_midnight : get_window_state night nightly ≡ active
unfolding get_window_state
open_past_midnight = refl

get_window_state-daily_example : get_window_state night nightly ≡ (
    if ltb
      (until (79_200_000 / 60_000) (949_500_000 / 60_000))
      (until (79_200_000 / 60_000) (7_200_000 / 60_000))
    then active
    else inactive)
get_window_state-daily_example = get_window_state-daily night "n" 79_200_000 7_200_000

-- an hour ahead of UTC
abbrev berlin : Zone
berlin = record { ahead = λ m. 1500; utc = λ l. l - 60 }

abbrev empty_form : Form
empty_form = record {
  selected_system = "";
  is_global = true;
  window_type = one_time;
  start_date_time = none;
  end_date_time = none;
  start_time = none;
  end_time = none;
}

abbrev nightly_form : Form
nightly_form = record empty_form {
  selected_system = "nas";
  is_global = false;
  window_type = daily;
  start_time = some 1320;
  end_time = some 120;
}

handle_submit-Reopens_example : Reopens berlin nightly_form empty_form
handle_submit-Reopens_example =
    handle_submit-Reopens berlin nightly_form empty_form 1320 refl
      ((omega arith, refl), (omega arith, refl))

-- Without a start nothing is sent.
empty_start_throws : handle_submit berlin (record nightly_form { start_time = none }) ≡ none
unfolding handle_submit submit_as
empty_start_throws = refl
