-- ===== src/SystemPage/Cache/Tests.antt =====
-- Fetches at concrete times.
use bezel_custom.Prelude.{ℕ, Option, none, some, List, [], ◌∷◌, arith}
use bezel_custom.SystemPage.{Sample, last_created, add_empty_values, fill_from, merge, trim}
use bezel_custom.SystemPage.Cache.{IsRising, IsLater, last_time, merge_all, asked_from}
use bezel_custom.SystemPage.Cache.Fetches.{merge_all-IsRising}
use bezel_custom.SystemPage.Cache.Overlap.{overlap_repeats}

abbrev at : ℕ → Sample ℕ
at t = record { created = some t; stats = some t }

abbrev cached : List (Sample ℕ)
cached = at 60_000 ∷ at 120_500 ∷ []

abbrev answers : List (Option (List (Sample ℕ)))
answers = some (at 180_200 ∷ []) ∷ none ∷ some (at 900_000 ∷ at 960_000 ∷ []) ∷ []

-- Two records of the last answer have one time.
abbrev next : List (Sample ℕ)
next = at 1_020_000 ∷ at 1_020_000 ∷ []

merge_all-IsRising_example :
    IsRising 0 0 (merge_all 60_000 cached answers)
    × IsLater (last_time 0 (merge_all 60_000 cached answers)) next
unfolding merge_all asked_from last_created merge add_empty_values fill_from trim
merge_all-IsRising_example =
    merge_all-IsRising 0 60_000 answers cached next (omega arith)
      ((omega arith, (omega arith, tt)), tt)
      ((omega arith, tt), ((omega arith, (omega arith, tt)), tt)) (omega arith, (omega arith, tt))

overlap_repeats_example :
    ¬ IsRising 1 0 (merge_all 60_000 cached (some (at 180_200 ∷ []) ∷ some (at 180_200 ∷ []) ∷ []))
unfolding asked_from last_created add_empty_values fill_from
overlap_repeats_example =
    overlap_repeats 60_000 180_200 (some 180_200) [] cached ((omega arith, (omega arith, tt)), tt)
      (omega arith, tt) (omega arith) (omega arith)
