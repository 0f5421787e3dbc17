-- ===== src/FleetActions/Tests.antt =====
-- Actions on all systems at concrete results.
use bezel_custom.Prelude.{◌≡◌, refl, false, none, some, List, [], ◌∷◌, length}
use bezel_custom.FleetActions.{
  Entry, updates, security, State, Event, chooses, continues, answers, acted, skipped, failed,
  handle_all, handle, message, started,
}
use bezel_custom.FleetActions.Results.{untold}
use bezel_custom.FleetActions.Running.{number, handle_all-sends_one}

abbrev results : List Entry
results =
    ("nas", "running (12)")
    ∷ ("vps", "no updates")
    ∷ ("pi", "error: timeout")
    ∷ ("old", "failed (3)")
    ∷ []

-- A status other than running is not told.
one_untold : untold results ≡ 1
one_untold = refl

abbrev quiet : State
quiet = record { confirm = none; running = false; sent = []; toasts = [] }

abbrev clicks : List Event
clicks = chooses updates ∷ continues ∷ chooses security ∷ continues ∷ []

handle_all-sends_one_example :
    length (handle_all clicks quiet).sent ≡ number (handle_all clicks quiet).running
handle_all-sends_one_example = handle_all-sends_one clicks quiet refl refl

tells :
    (handle_all (chooses updates ∷ continues ∷ answers (some results) ∷ []) quiet).toasts
    ≡ started updates ("nas" ∷ []) 1 (("pi", "timeout") ∷ []) ∷ []
unfolding handle_all handle message acted skipped failed
tells = refl
