-- ===== src/Tables/Tests.antt =====
-- Rows of the tables at concrete answers.
use bezel_custom.Prelude.{ℕ, ◌≡◌, refl, String, false, some, none, List, [], ◌∷◌, map, keep}
use bezel_custom.Tables.{Row, is_near, is_recent, receive_containers, receive_services}
use bezel_custom.Disks.{Disk}
use bezel_custom.Tables.Filters.{Container, Service}
use bezel_custom.Tables.Merge.{find_key, first_some, last_of, find_key-receive}
use bezel_custom.Tables.ContainerSheet.{
  Answer, Sheet, Event, blank, no_results, opens, loads, clicks, refreshes, stops, handle,
  handle_all,
}

abbrev row : String → ℕ → Row
row id updated = record { id = id; name = id; system = "s"; updated = updated }

abbrev current : List Row
current = row "db" 40000 ∷ row "web" 100000 ∷ row "old" 10000 ∷ []

abbrev rest : List Row
rest = row "db" 100000 ∷ []

replaces_and_drops :
    map (λ r. r.id) (receive_containers none (row "web" 95000 ∷ rest) current) ≡ "web" ∷ "db" ∷ []
unfolding receive_containers
replaces_and_drops = refl

keeps_recent :
    map (λ r. r.id) (receive_services (row "cron" 60000 ∷ []) current)
    ≡ "cron" ∷ "db" ∷ "web" ∷ "old" ∷ []
unfolding receive_services
keeps_recent = refl

find_key-receive_example :
    (find_key (λ x. x.id) "web" (receive_containers none (row "web" 95000 ∷ rest) current)
      ≡ first_some
          (find_key
            (λ x. x.id)
            "web"
            (keep (is_near (last_of (row "web" 95000) rest)) (row "web" 95000 ∷ rest)))
          (find_key (λ x. x.id) "web" (keep (is_recent (last_of (row "web" 95000) rest)) current)))
    × (find_key (λ x. x.name) "web" (receive_services (row "web" 95000 ∷ rest) current)
        ≡ first_some
            (find_key
              (λ x. x.name)
              "web"
              (keep (is_near (last_of (row "web" 95000) rest)) (row "web" 95000 ∷ rest)))
            (find_key
              (λ x. x.name)
              "web"
              (keep (is_recent (last_of (row "web" 95000) rest)) current)))
find_key-receive_example = find_key-receive none "web" (row "web" 95000) rest current

abbrev container : Container
container = record {
  id = some "c1";
  name = some "postgres";
  system = "s";
  status = some "Up 3 days";
  health = 2;
  image = none;
}

abbrev service : Service
service = record { name = some "ssh"; system = "s"; state = 0; sub = none }

abbrev disk : Disk
disk = record {
  id = "d";
  system = "s";
  name = "sda";
  model = "SSD";
  state = "PASSED";
  disk_type = "sat";
  hours = none;
  cycles = none;
}

abbrev same : String → String
same text = text

abbrev about : String → String → Answer
about c text = record { about = c; text = some text }

abbrev first_sheet : Sheet
first_sheet = record { container = "db"; logs = blank; info = blank; is_refreshing = false }

abbrev in_order : List Event
in_order =
    loads (about "db" "ready") (about "db" "{}")
    ∷ clicks
    ∷ refreshes (about "db" "ready again")
    ∷ stops
    ∷ opens "web"
    ∷ loads (about "web" "") (record { about = "web"; text = none })
    ∷ []

shows_no_results : (handle_all in_order first_sheet).logs ≡ no_results "web"
unfolding handle_all handle
shows_no_results = refl
