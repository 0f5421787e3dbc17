-- ===== src/SystemsTable/Tests.antt =====
-- The columns and the menu at concrete inputs.
use bezel_custom.Prelude.{◌≡◌, ◌↔◌, refl, String, true, false, none, some, List, [], ◌∷◌, All}
use bezel_custom.Systems.{SystemStatus, up, down, pending, paused}
use bezel_custom.SystemsTable.{
  Row, green, red, yellow, load_cell, battery_cell, services_cell, updates_cell, low, red_icon,
  discharging,
}
use bezel_custom.SystemsTable.Indicators.{extra_disk_indicators}
use bezel_custom.SystemsTable.Menu.{items, items-Allowed, Allowed, request, copy_name, copy_host}
use mathlib.Core.List.{Memᴰ}
use bezel_custom.Store.{MapStore}
use bezel_custom.Store.Assoc.{assoc_store}
use bezel_custom.Systems.{SystemRecord, init, start}
use bezel_custom.Systems.Directory.{Event, answer, message, run, enter_all}
use bezel_custom.SystemsTable.StatusFilter.{only, shows, filtered_data, filtered_data-directory}

abbrev nas : Row
nas = record {
  id = "a";
  name = "nas";
  host = "10.0.0.2";
  status = up;
  version = record { major = 0; minor = 12; patch = 0 };
  threads = some 2;
  la = some (20, 10, 5);
  l1 = some 150;
  l5 = none;
  l15 = some 190;
  dp = 40;
  efs = ("one", 95) ∷ ("two", 20) ∷ ("three", 99) ∷ [];
  bat = some (7, some discharging);
  sv = some (30, 2);
  pu = some 4;
  pus = none;
  rb = some true;
}

-- An agent of version 0.12.0 is read by its old fields.
loads : load_cell none none nas ≡ some (red, (150, 0, 190))
unfolding load_cell
loads = refl

battery : battery_cell nas ≡ some (low, red_icon)
unfolding battery_cell
battery = refl

services : services_cell nas ≡ some (red, (30, 2))
unfolding services_cell
services = refl

updates : updates_cell nas ≡ some (some (yellow, 4), true)
unfolding updates_cell
updates = refl

dots : extra_disk_indicators none none nas ≡ green ∷ red ∷ []
unfolding extra_disk_indicators
dots = refl

read_only_items : items true nas ≡ copy_name ∷ copy_host ∷ []
unfolding items
read_only_items = refl

abbrev same : String → String
same text = text

abbrev label : SystemStatus → String
label up = "Up"
label down = "Down"
label pending = "Pending"
label paused = "Paused"

abbrev calls : List (String × SystemStatus × String)
calls = ("nas", up, "a") ∷ ("nas", up, "p") ∷ ("pi", down, "p") ∷ []

items-Allowed_example : All (λ item. Allowed false nas (request item nas)) (items false nas)
items-Allowed_example = items-Allowed false nas

abbrev stores : MapStore SystemRecord
stores = assoc_store SystemRecord

abbrev machine : String → SystemStatus → SystemRecord
machine id status = record {
  id = id;
  name = id;
  host = "10.0.0.1";
  port = "45876";
  info = some (record { cpu = some 4; version = "0.18.0" });
  status = status;
}

abbrev session_events : List Event
session_events =
    answer (some (machine "a" up ∷ machine "b" down ∷ []))
    ∷ message "update" (machine "a" down)
    ∷ message "create" (machine "c" paused)
    ∷ []

filtered_data-directory_example :
    Memᴰ
      (machine "a" down)
      (filtered_data stores (only down) (run stores session_events (init stores (start stores))))
    ↔ ((k : String) × (enter_all session_events (λ j. none) k ≡ some (machine "a" down))
        × (shows (only down) down ≡ true))
filtered_data-directory_example =
    filtered_data-directory stores session_events (only down) (machine "a" down)
