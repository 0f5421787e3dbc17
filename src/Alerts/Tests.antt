-- ===== src/Alerts/Tests.antt =====
-- Runs of the alert manager on the association-list store, and the theorems at concrete inputs.
use bezel_custom.Prelude.{
  ℕ, ◌≡◌, refl, String, true, false, none, List, [], ◌∷◌, arith, ltb, length,
}
use bezel_custom.Store.{MapStore}
use bezel_custom.Store.Assoc.{assoc_store}
use bezel_custom.Dict.{Dict}
use bezel_custom.Alerts.{AlertRecord, Message, batch_update, elapse}
use bezel_custom.Alerts.Sheet.{Content, Sheet, get_system_ids}
use bezel_custom.Alerts.Active.{active_alerts, draw, redraw, Alike}
use bezel_custom.Alerts.Lookup.{lookup}
use bezel_custom.Alerts.Schedule.{
  Step, receives, elapses, run, idle, at_once, all_at_once, run-at_once,
}

abbrev stores : MapStore (Dict AlertRecord)
stores = assoc_store (Dict AlertRecord)

abbrev alert : String → String → ℕ → AlertRecord
alert system name value = record {
  id = "r1";
  name = name;
  system = system;
  value = value;
  min = 10;
  triggered = false;
}

abbrev message : String → AlertRecord → Message
message action a = record { action = action; alert = a }

abbrev some_alerts : List AlertRecord
some_alerts = alert "s1" "CPU" 800 ∷ alert "s2" "Disk" 900 ∷ alert "s1" "CPU" 850 ∷ []

abbrev schedule : List Step
schedule =
    receives 0 (message "create" (alert "s1" "CPU" 800))
    ∷ receives 20 (message "delete" (alert "s1" "CPU" 800))
    ∷ elapses 60
    ∷ elapses 70
    ∷ receives 90 (message "create" (alert "s2" "Disk" 900))
    ∷ []

run-at_once_example :
    lookup stores
      (elapse stores 150 (
        batch_update stores 100
          (message "update" (alert "s1" "CPU" 700))
          (run stores schedule (idle stores stores.empty)))).store
      "s1"
      "CPU"
    ≡ lookup stores
        (at_once stores
          (receives 100 (message "update" (alert "s1" "CPU" 700)))
          (all_at_once stores schedule stores.empty))
        "s1"
        "CPU"
run-at_once_example =
    run-at_once stores 2 schedule stores.empty 100 150 (message "update" (alert "s1" "CPU" 700))
      ((refl, refl), ((refl, refl), (tt, (tt, ((refl, refl), tt))))) (refl, refl) (omega arith) "s1"
      "CPU" refl

-- All systems, one of which has an alert.
abbrev sheet : Sheet
sheet = record {
  upserts = record { pending = none; calls = [] };
  deletions = record { pending = none; calls = [] };
  initial_alerts = ("s1", ("CPU", alert "s1" "CPU" 800) ∷ []) ∷ [];
  overwrite_existing = false;
  systems = "s1" ∷ "s2" ∷ [];
}

abbrev all_of : String → Content
all_of key = record {
  alert_key = key;
  system = "s1";
  is_global = true;
  checked = false;
  min = 10;
  value = 800;
}

some_systems : ltb 0 (length (get_system_ids (all_of "CPU") sheet)) ≡ true
unfolding get_system_ids
some_systems = refl

more_systems : ltb 0 (length (get_system_ids (all_of "Disk") sheet)) ≡ true
unfolding get_system_ids
more_systems = refl

abbrev triggered : String → AlertRecord
triggered name = record (alert "s1" name 800) { triggered = true }

abbrev digits : ℕ → String
digits n = "80"

other_is_not_drawn :
    (redraw digits
      ((("Memory", triggered "Memory") ∷ []) ∷ [])
      (draw digits ((("CPU", triggered "CPU") ∷ []) ∷ []))).alerts
    ≡ triggered "CPU" ∷ []
unfolding redraw
other_is_not_drawn = refl

alike :
    Alike digits
      (active_alerts ((("Memory", triggered "Memory") ∷ []) ∷ []))
      (active_alerts ((("CPU", triggered "CPU") ∷ []) ∷ []))
unfolding active_alerts
alike = ((refl, refl, refl), tt)
