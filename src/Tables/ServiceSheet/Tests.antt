-- ===== src/Tables/ServiceSheet/Tests.antt =====
-- The sheet of a service when a slow answer comes after the next service was opened.
use bezel_custom.Prelude.{ℕ, zero, suc, ◌≡◌, refl, String, true, false, none, some, List, [], ◌∷◌}
use bezel_custom.Tables.ServiceSheet.{
  Sheet, Event, opens, closes, answers, found, failed, no_results, handle_all, IsAbout,
  handle_all-IsAbout,
}

abbrev blank : Sheet
blank = record {
  service = "";
  is_open = false;
  current = none;
  runs = 0;
  details = none;
  is_loading = false;
  error = none;
}

abbrev asked : ℕ → String
asked zero = "ssh"
asked (suc n) = "cron"

-- The answer about ssh comes after cron was opened, and is not shown.
abbrev late_events : List Event
late_events =
    opens "ssh" ∷ opens "cron" ∷ answers 0 "ssh" (found "old") ∷ answers 1 "cron" (found "new") ∷ []

shows_the_new_one :
    (handle_all late_events blank).details ≡ some (record { about = "cron"; text = "new" })
unfolding handle_all
shows_the_new_one = refl

late_is_dropped :
    (handle_all (opens "ssh" ∷ closes ∷ answers 0 "ssh" (failed "timeout") ∷ []) blank).error ≡ none
unfolding handle_all
late_is_dropped = refl

-- A sheet that is closed while it loads stays in that state, as nothing answers it any more.
closed_keeps_loading :
    (handle_all (opens "ssh" ∷ closes ∷ answers 0 "ssh" no_results ∷ []) blank).is_loading ≡ true
unfolding handle_all
closed_keeps_loading = refl

handle_all-IsAbout_example :
    IsAbout (handle_all late_events blank).service (handle_all late_events blank).details
handle_all-IsAbout_example = handle_all-IsAbout asked late_events blank refl refl (refl, (refl, tt))
