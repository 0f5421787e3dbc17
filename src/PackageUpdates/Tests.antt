-- ===== src/PackageUpdates/Tests.antt =====
-- Package updates at concrete inputs.
use bezel_custom.Prelude.{
  ◌≡◌, refl, inl, String, Bool, true, false, none, some, List, [], ◌∷◌, keep,
}
use bezel_custom.Search.{split_spaces}
use bezel_custom.PackageUpdates.{
  PackageUpdate, ApplyStatus, running, done, State, packages_updated, lists_name, is_active,
  follow_job,
}
use bezel_custom.PackageUpdates.Steps.{
  Event, clicked, click_all, click_row, click_hold, type_filter, run,
}
use bezel_custom.PackageUpdates.Selection.{is_free}
use bezel_custom.PackageUpdates.Holds.{IsApplicable}
use bezel_custom.PackageUpdates.Invariants.{run-IsApplicable}
use bezel_custom.PackageUpdates.Jobs.{polls, job_told_once}

abbrev update_of : String → Bool → PackageUpdate
update_of name held = record { n = name; cv = none; av = none; hd = held; sec = false }

abbrev three : List PackageUpdate
three = update_of "curl" false ∷ update_of "linux base" true ∷ update_of "libcurl" false ∷ []

abbrev page : State
page = record {
  updates = some three;
  selected = "curl" ∷ [];
  checking = false;
  applying = none;
  unsupported = false;
  filter_text = "";
  announced_job = 7;
  requests = [];
  toasts = [];
}

abbrev same : String → String
same text = text

abbrev some_clicks : List Event
some_clicks =
    clicked click_all
    ∷ clicked (click_hold 2)
    ∷ clicked (type_filter "lib c")
    ∷ clicked (click_row 0)
    ∷ []

abbrev answered : ApplyStatus
answered = record {
  status = done;
  packages = some ("curl" ∷ []);
  message = none;
  started_at = none;
  finished_at = some 90;
}

abbrev started : ApplyStatus
started = record {
  status = running;
  packages = none;
  message = none;
  started_at = none;
  finished_at = none;
}

-- A held package is not selected with all.
all_selected : (run same (clicked click_all ∷ []) page).selected ≡ "curl" ∷ "libcurl" ∷ []
unfolding run split_spaces
all_selected = refl

page_applicable : lists_name "curl" (keep is_free three) ≡ true
unfolding lists_name
page_applicable = refl

run-IsApplicable_example : IsApplicable (run same some_clicks page)
run-IsApplicable_example =
    run-IsApplicable same some_clicks page (refl, (refl, (refl, (refl, tt)))) (page_applicable, tt)

job_told_once_example :
    (is_active (polls ((5, started) ∷ []) (follow_job started page)).applying ≡ true)
    × (is_active (polls ((5, started) ∷ (6, answered) ∷ []) (follow_job started page)).applying
        ≡ false)
    × ((polls ((5, started) ∷ (6, answered) ∷ (7, answered) ∷ []) (follow_job started page)).toasts
        ≡ packages_updated (some 1) ∷ [])
job_told_once_example =
    job_told_once started ((5, started) ∷ []) ((7, answered) ∷ []) 89 6 answered page (inl refl)
      (inl refl, tt) ((refl, inl refl), ((refl, inl refl), tt))
