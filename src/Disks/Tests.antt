-- ===== src/Disks/Tests.antt =====
-- Disks at concrete inputs.
use bezel_custom.Prelude.{◌≡◌, refl, String, false, none, some, List, [], ◌∷◌}
use bezel_custom.QuietHours.{update}
use bezel_custom.Disks.{Disk, State, in_scope, has_id, next_devices}
use bezel_custom.Disks.Events.{IsScoped}
use bezel_custom.Disks.Actions.{Step, refreshes, deletes, ends, run, delete_disabled}

abbrev disk : String → String → Disk
disk id system = record {
  id = id;
  system = system;
  name = "/dev/sda";
  model = "SSD";
  state = "PASSED";
  disk_type = "nvme";
  hours = some 20;
  cycles = none;
}

abbrev two : List Disk
two = disk "a" "s" ∷ disk "b" "s" ∷ []

-- A disk that moved to another system leaves the page.
moved : next_devices (some "s") update (disk "a" "t") two ≡ disk "b" "s" ∷ []
unfolding next_devices
moved = refl

two-IsScoped : IsScoped (some "s") two
unfolding in_scope has_id
two-IsScoped = ((refl, (refl, tt)), (refl, (refl, tt)))

abbrev page : State
page = record { devices = some two; row_action = none }

abbrev overlapping : List Step
overlapping = refreshes (disk "a" "s") ∷ deletes (disk "a" "s") ∷ ends (disk "a" "s") ∷ []

-- The end of the refresh takes the deletion that is under way for ended.
enabled_again : delete_disabled (disk "a" "s") (run overlapping page) ≡ false
unfolding run delete_disabled
enabled_again = refl
