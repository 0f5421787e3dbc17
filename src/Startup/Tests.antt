-- ===== src/Startup/Tests.antt =====
-- Sessions that start, with changes at the hub in between, and a page that ends too early.
use bezel_custom.Prelude.{◌≡◌, refl, ◌++◌, String, true, false, some, none, List, [], ◌∷◌}
use bezel_custom.Store.{MapStore}
use bezel_custom.Store.Assoc.{assoc_store}
use bezel_custom.Dict.{Dict}
use bezel_custom.Systems.{SystemRecord, SystemStatus, up, down, validate_system_info}
use bezel_custom.Systems.Writes.{filed, status_store}
use bezel_custom.Systems.Directory.{answer, enter_all}
use bezel_custom.Alerts.{AlertRecord, Manager}
use bezel_custom.Startup.{
  HubEvent, Event, hub, answers_alerts, unmounts, changes_system, passes, handle_all, mounted,
}
use bezel_custom.Startup.Sessions.{session, session-directory, delivered}
use bezel_custom.Startup.Subscriptions.{requests, requests_end, ended}
use bezel_custom.Startup.Endings.{unmounts_ends}

abbrev systems : MapStore SystemRecord
systems = assoc_store SystemRecord

abbrev alerts : MapStore (Dict AlertRecord)
alerts = assoc_store (Dict AlertRecord)

abbrev no_alerts : Manager alerts
no_alerts = record { store = alerts.empty; batch = []; timer = none }

abbrev system : String → SystemStatus → SystemRecord
system id status = record {
  id = id;
  name = id;
  host = "h";
  port = "45876";
  info = some (record { cpu = some 3; version = "0.18.0" });
  status = status;
}

-- The second system is created before the page is subscribed to systems.
abbrev gap : List HubEvent
gap = changes_system "create" (system "b" up) ∷ passes 10 ∷ []

abbrev late : List Event
late = hub (changes_system "update" (system "a" down)) ∷ answers_alerts (some []) ∷ []

session-directory_example :
    let s =
      (handle_all systems alerts
        (session gap (system "a" up ∷ []) gap late)
        (mounted systems alerts no_alerts)).systems in
    let directory = enter_all (answer (some (system "a" up ∷ [])) ∷ delivered late) (λ j. none) in
    (systems.value s.by_id "b" ≡ directory "b")
    × ((st : SystemStatus)
        → systems.value (status_store systems st s) "b" ≡ filed st (directory "b"))
session-directory_example =
    session-directory systems alerts no_alerts gap gap (system "a" up ∷ []) late "b"

-- It is not on the page.
misses_the_second :
    enter_all (answer (some (system "a" up ∷ [])) ∷ delivered late) (λ j. none) "b" ≡ none
unfolding validate_system_info
misses_the_second = refl

abbrev all_requests : List Event
all_requests = requests none gap true gap (some []) [] true

requests_end_example :
    (handle_all systems alerts all_requests (mounted systems alerts no_alerts)).chain
    ≡ ended true true
requests_end_example = requests_end systems alerts no_alerts none (some []) true true gap gap []

unmounts_ends_example :
    let c =
      (handle_all systems alerts
        (requests none [] true [] none [] true ++ (unmounts ∷ hub (passes 9) ∷ []))
        (mounted systems alerts no_alerts)).chain in
    (c.systems_live ≡ false) × (c.alerts_live ≡ false)
unfolding handle_all
unmounts_ends_example =
    unmounts_ends systems alerts no_alerts (requests none [] true [] none [] true)
      (hub (passes 9) ∷ []) refl
