-- ===== src/Systems/Tests.antt =====
-- Runs of the systems manager on the association-list store, and the theorems at concrete inputs.
use bezel_custom.Prelude.{◌≡◌, ◌≢◌, refl, String, some, List, [], ◌∷◌, arith, eq_iff}
use bezel_custom.Store.{MapStore}
use bezel_custom.Store.Assoc.{assoc_store}
use bezel_custom.Systems.{
  SystemStatus, up, down, SystemRecord, State, start, init, add, update, validate_system_info,
  valid, set_by_id, listener, purge, file_by_status, on_systems_changed, add_checked,
  update_checked, forget_name, old_name, renamed,
}
use bezel_custom.Systems.Writes.{filed, status_store}
use bezel_custom.Systems.Sync.{IsSynced, start-IsSynced, update-IsSynced}
use bezel_custom.Systems.Names.{IsIndexed, update-IsIndexed, add_leaves_old_name}
use bezel_custom.Systems.Directory.{Event, message, answer, run, run-directory, run-IsSynced}
use bezel_custom.Systems.Display.{IsShown}
use bezel_custom.Systems.Display.Events.{run-IsShown, start-IsShown}

abbrev stores : MapStore SystemRecord
stores = assoc_store SystemRecord

abbrev system : String → String → SystemStatus → SystemRecord
system id name status = record {
  id = id;
  name = name;
  host = "10.0.0.1";
  port = "45876";
  info = some (record { cpu = some 4; version = "0.18.0" });
  status = status;
}

abbrev ready : State stores
ready = init stores (start stores)

abbrev script : List Event
script =
    answer (some (system "a" "alpha" up ∷ system "b" "beta" down ∷ []))
    ∷ message "update" (system "a" "alpha2" down)
    ∷ message "delete" (system "b" "beta" down)
    ∷ []

run-directory_example :
    (stores.value (run stores script ready).by_id "a" ≡ some (system "a" "alpha2" down))
    × ((st : SystemStatus)
        → stores.value (status_store stores st (run stores script ready)) "a"
          ≡ filed st (some (system "a" "alpha2" down)))
unfolding validate_system_info
run-directory_example = run-directory stores script "a"

run-IsShown_example : IsShown stores (run stores script ready)
run-IsShown_example = run-IsShown stores script ready (start-IsSynced stores) (start-IsShown stores)

run-IsSynced_example : IsSynced stores (run stores script ready)
run-IsSynced_example = run-IsSynced stores script ready (start-IsSynced stores)

ready-IsIndexed : IsIndexed stores ready
unfolding init start
ready-IsIndexed = record { named = λ k r e. cc; current = λ k r e. cc }

abbrev one : State stores
one = update stores (system "a" "alpha" up) ready

one-IsSynced : IsSynced stores one
one-IsSynced = update-IsSynced stores (system "a" "alpha" up) ready (start-IsSynced stores)

one-IsIndexed : IsIndexed stores one
one-IsIndexed =
    update-IsIndexed stores (system "a" "alpha" up) ready (start-IsSynced stores) ready-IsIndexed

-- A rename.
update-IsIndexed_example : IsIndexed stores (update stores (system "a" "omega" down) one)
update-IsIndexed_example =
    update-IsIndexed stores (system "a" "omega" down) one one-IsSynced one-IsIndexed

one_known : stores.value one.by_id "a" ≡ some (system "a" "alpha" up)
unfolding init start validate_system_info set_by_id listener purge file_by_status on_systems_changed
    add add_checked update update_checked forget_name old_name renamed
one_known = refl

one_named : stores.value one.by_name "alpha" ≡ some (system "a" "alpha" up)
unfolding init start validate_system_info set_by_id listener purge file_by_status on_systems_changed
    add add_checked update update_checked forget_name old_name renamed
one_named = refl

a_is_valid : validate_system_info (system "a" "omega" up) ≡ valid
unfolding validate_system_info
a_is_valid = refl

alpha_ne_omega : ◌≢◌ {A = String} "alpha" "omega"
alpha_ne_omega = ground (arith, eq_iff "alpha" "omega")

abbrev readded : State stores
readded = add stores (system "a" "omega" up) one

add_leaves_old_name_example :
    (stores.value readded.by_name "alpha" ≡ some (system "a" "alpha" up))
    × (stores.value readded.by_id "a" ≡ some (system "a" "omega" up))
    × ¬ IsIndexed stores readded
add_leaves_old_name_example =
    add_leaves_old_name stores (system "a" "omega" up) one one-IsSynced (system "a" "alpha" up)
      a_is_valid one_known one_named alpha_ne_omega
