-- ===== src/SystemPage/TimeData.antt =====
-- getTimeData: the cache entry is what d3 built, and it is not used past its time.
use bezel_custom.Prelude.{
  ℕ, ◌≤◌, ◌≡◌, refl, Option, none, some, ◌⊎◌, arith, eq_iff, String, Bool-cases, inl, inr,
}
use bezel_custom.SystemPage.{TimeEntry, get_time_data, is_fresh}

module _ {D : Type 0} (build : String → ℕ → D) where
  -- The entry holds what was built for its chart time at its time.
  pub record IsBuilt (entry : TimeEntry D) : Type 0 where
    pub built : entry.ticks ≡ build entry.chart_time entry.time

  abbrev pub WasBuilt : Option (TimeEntry D) → Type 0
  WasBuilt none = Unit
  WasBuilt (some entry) = IsBuilt entry

  -- If the cache entry was built for its chart time and its time, so is the one left behind, which
  -- is for the chart time asked for and holds the data returned, and which is no older than the
  -- last record unless it was built just now or there is no record.
  pub get_time_data_lem :
      (cached : Option (TimeEntry D)) (chart_time : String) (last now : ℕ)
      → WasBuilt cached
      → IsBuilt (get_time_data build cached chart_time last now).1
        × ((get_time_data build cached chart_time last now).1.chart_time ≡ chart_time)
        × ((get_time_data build cached chart_time last now).0
            ≡ (get_time_data build cached chart_time last now).1.ticks)
        × ((last ≡ 0)
            ⊎ (last ≤ (get_time_data build cached chart_time last now).1.time)
            ⊎ ((get_time_data build cached chart_time last now).1.time ≡ now))
  unfolding get_time_data
  get_time_data_lem none chart_time last now h = (record { built = refl }, refl, refl, ground arith)
  get_time_data_lem (some entry) chart_time last now h =
      elim (Bool-cases (is_fresh last entry chart_time)) [
        | inl fresh ↦
            rw fresh (h, ground (arith, eq_iff entry.chart_time chart_time), refl, ground arith)
        | inr stale ↦ rw stale (record { built = refl }, refl, refl, ground arith)
      ]
