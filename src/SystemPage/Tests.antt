-- ===== src/SystemPage/Tests.antt =====
-- Runs of the chart history, and the theorems at concrete inputs.
use bezel_custom.Prelude.{
  arith, is_there, ℕ, ◌<◌, ◌/◌, ◌≡◌, ◌≢◌, refl, String, true, false, Option, none, some, List, [],
  ◌∷◌, ◌++◌, length, get_elem?, keep,
}
use bezel_custom.SystemPage.{
  Sample, marker, last_created, add_empty_values, fill_from, merge, realtime, find_index, step_from,
  handle_key_up, previous, TimeEntry,
}
use bezel_custom.SystemPage.Gaps.{is_timed, IsMarked, add_empty_values_lem}
use bezel_custom.SystemPage.Repeats.{untimed}
use bezel_custom.SystemPage.History.{IsCut, merge_lem}
use bezel_custom.SystemPage.Navigation.{opposite, handle_key_up_lem}
use bezel_custom.Dict.{Dict}
use bezel_custom.SystemPage.FilterBar.{
  FilterBar, changes, clears, waits, handle as handle_bar, handle_all as handle_bar_events,
  schedule, wait, handle_all-settles,
}
use bezel_custom.SystemPage.FilterBar
use bezel_custom.SystemPage.Realtime.{
  Feed, subscribes, answers, cleans_up, handle_all as handle_answers,
}
use bezel_custom.SystemPage.Realtime
use bezel_custom.SystemPage.Gpus.{
  Gpu, last_gpus, some_gpu, with_engines, draws_power, gpu_flags, find_engines, gpu_flags_lem,
  engines_of, sorted, insert_name, keys,
}
use bezel_custom.SystemPage.Timestamps.{Moment}
use bezel_custom.SystemPage.Series.{
  Measured, in_bytes, in_megabytes, disk_read, disk_write, sent, received, from_mb,
  bytes_as_megabytes,
}

abbrev at : ℕ → Sample ℕ
at t = record { created = some t; stats = some t }

abbrev with_gap : List (Sample ℕ)
with_gap = at 1000 ∷ at 9000 ∷ at 10000 ∷ []

add_empty_values_lem_example :
    (keep is_timed (add_empty_values [] with_gap 1000) ≡ with_gap)
    × IsMarked 1000 0 (add_empty_values [] with_gap 1000)
unfolding last_created
add_empty_values_lem_example = add_empty_values_lem [] with_gap 1000

marks_the_gap : add_empty_values [] with_gap 1000 ≡ at 1000 ∷ marker ∷ at 9000 ∷ at 10000 ∷ []
unfolding add_empty_values fill_from
marks_the_gap = refl

-- Three messages after one pause leave three markers for it.
three_messages :
    untimed (realtime (realtime (realtime with_gap 11000 none) 12000 none) 13000 none) ≡ 3
unfolding realtime add_empty_values fill_from last_created untimed
three_messages = refl

merge_lem_example :
    IsCut
      (with_gap ++ add_empty_values with_gap (at 20000 ∷ []) 1000)
      (merge with_gap (some (at 20000 ∷ [])) 1000)
merge_lem_example = merge_lem with_gap (at 20000) [] 1000

abbrev systems : List String
systems = "a" ∷ "b" ∷ "c" ∷ []

handle_key_up_lem_example :
    (i : ℕ) × (get_elem? systems i ≡ some "a")
    × (2 < length systems)
    × (◌≢◌ {A = ℕ} 2 i)
    × (handle_key_up false (opposite previous) "c" systems ≡ some i)
unfolding handle_key_up find_index step_from
handle_key_up_lem_example = handle_key_up_lem previous "a" "c" systems 2 refl refl

abbrev build : String → ℕ → ℕ
build chart_time now = now / 2

abbrev entry : TimeEntry ℕ
entry = record { time = 100; ticks = 50; chart_time = "1h" }

abbrev empty_bar : FilterBar
empty_bar = record { input = ""; stored = ""; timer = none }

abbrev typing : List FilterBar.Event
typing = changes "n" ∷ waits 50 ∷ changes "ng" ∷ waits 50 ∷ []

stores_the_text :
    handle_bar_events (changes "n" ∷ waits 50 ∷ changes "ng" ∷ waits 79 ∷ waits 1 ∷ []) empty_bar
    ≡ record { input = "ng"; stored = "ng"; timer = none }
unfolding handle_bar_events handle_bar schedule wait
stores_the_text = refl

abbrev quiet_feed : Feed
quiet_feed = record { current = none; listeners = [] }

abbrev next_run : List Realtime.Event
next_run = subscribes 2 ∷ answers 2 ∷ cleans_up ∷ []

abbrev gpu : Option ℕ → Option (Dict ℕ) → Gpu ℕ
gpu power engines = record { power = power; package_power = none; engines = engines }

abbrev gpu_stats : List (Option (Dict (Gpu ℕ)))
gpu_stats =
    some (("0", gpu none (some (("Video", 3) ∷ ("Render", 7) ∷ []))) ∷ [])
    ∷ none
    ∷ some (("0", gpu (some 15) none) ∷ [])
    ∷ []

gpu_flags_lem_example :
    ((gpu_flags gpu_stats).has_engines ≡ some_gpu with_engines gpu_stats)
    × ((gpu_flags gpu_stats).has_power ≡ some_gpu draws_power gpu_stats)
    × (is_there (find_engines gpu_stats) ≡ (gpu_flags gpu_stats).has_engines)
unfolding last_gpus
gpu_flags_lem_example = gpu_flags_lem gpu_stats (("0", gpu (some 15) none) ∷ []) refl

draws_sorted_engines : find_engines gpu_stats ≡ some ("0", "Render" ∷ "Video" ∷ [])
unfolding find_engines engines_of sorted insert_name keys
draws_sorted_engines = refl

abbrev morning : Moment
morning = record { year = 2025; month = 9; day = 30; hours = 8; minutes = 5; seconds = 59 }

abbrev next_month : Moment
next_month = record { year = 2025; month = 10; day = 1; hours = 0; minutes = 0; seconds = 0 }

-- The rest is ".120Z".
abbrev fraction : List ℕ
fraction = 49 ∷ 50 ∷ 48 ∷ 90 ∷ []

abbrev quiet_disk : Measured
quiet_disk = record { average = 1; maximum = 3 }

abbrev busy : Measured
busy = record { average = 20; maximum = 90 }

bytes_as_megabytes_example :
    (disk_read true (in_bytes quiet_disk busy busy quiet_disk)
      ≡ disk_read true (in_megabytes quiet_disk busy busy quiet_disk))
    × (sent true (in_bytes quiet_disk busy busy quiet_disk)
        ≡ sent true (in_megabytes quiet_disk busy busy quiet_disk))
    × (received true (in_bytes quiet_disk busy busy quiet_disk)
        ≡ received true (in_megabytes quiet_disk busy busy quiet_disk))
    × (disk_write true (in_bytes quiet_disk busy busy quiet_disk) ≡ from_mb 20)
    × (disk_write true (in_megabytes quiet_disk busy busy quiet_disk) ≡ from_mb 90)
bytes_as_megabytes_example = bytes_as_megabytes true quiet_disk busy busy quiet_disk

handle_all-settles_example :
    ((handle_bar (waits 90) (handle_bar_events typing empty_bar)).stored
      ≡ (handle_bar_events typing empty_bar).input)
    × ((handle_bar (waits 90) (handle_bar_events typing empty_bar)).input
        ≡ (handle_bar_events typing empty_bar).input)
handle_all-settles_example = handle_all-settles typing empty_bar 90 refl refl (omega arith)
