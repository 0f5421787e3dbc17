-- ===== src/SystemPage.antt =====
-- internal/site/src/components/routes/system.tsx: the history of records behind the charts, the
-- realtime window and the keyboard navigation of the page of one system. Times are milliseconds.
pub mod Cache
pub mod Gaps
pub mod Repeats
pub mod History
pub mod Navigation
pub mod TimeData
pub mod FilterBar
pub mod Gpus
pub mod Period
pub mod Realtime
pub mod Timestamps
pub mod Series
mod Tests
use bezel_custom.Prelude.{
  ℕ, ◌+◌, ◌*◌, ◌-◌, Bool, true, false, Option, none, some, List, [], ◌∷◌, ◌++◌, ltb, ◌&&◌, length,
  drop, ◌%◌, String, suc, leb, ◌==◌, ◌||◌, str_eq, if◌then◌else◌,
}

-- A record of stats as the charts take it: a gap marker has neither time nor stats.
pub record Sample (A : Type 0) : Type 0 where
  pub created : Option ℕ
  pub stats : Option A

-- `created - prevTime > expectedInterval / 2 + expectedInterval`
abbrev pub too_long : ℕ → ℕ → ℕ → Bool
too_long expected prev t = ltb (2 * prev + 3 * expected) (2 * t)

abbrev pub next_time : ℕ → Option ℕ → ℕ
next_time prev none = prev
next_time prev (some t) = t

module _ {A : Type 0} where
  abbrev pub marker : Sample A
  marker = record { created = none; stats = none }

  -- `(records.at(-1)?.created ?? 0)`
  pub last_created : List (Sample A) → ℕ
  last_created [] = 0
  last_created (r ∷ []) = elim r.created [ none ↦ 0 | some t ↦ t ]
  last_created (_ ∷ r ∷ rs) = last_created (r ∷ rs)

  -- The null record that is pushed before a record of that time; a `prevTime` of 0 is falsy.
  abbrev pub gap_before : ℕ → ℕ → Option ℕ → List (Sample A)
  gap_before expected prev none = []
  gap_before expected prev (some t) =
      if ltb 0 prev && too_long expected prev t then marker ∷ [] else []

  -- the loop of addEmptyValues, with `prevTime` as its variable
  pub fill_from : ℕ → ℕ → List (Sample A) → List (Sample A)
  fill_from expected prev [] = []
  fill_from expected prev (r ∷ rs) =
      gap_before expected prev r.created ++ r ∷ fill_from expected (next_time prev r.created) rs

  pub add_empty_values : List (Sample A) → List (Sample A) → ℕ → List (Sample A)
  unfolding last_created
  add_empty_values prev_records new_records expected =
      fill_from expected (last_created prev_records) new_records

  -- `slice(-n)`
  abbrev pub take_last : ℕ → List (Sample A) → List (Sample A)
  take_last n rs = drop (length rs - n) rs

  -- The stats that a fetch adds to the cached ones: at most 120 are kept, and 100 when that is
  -- passed. An answer that failed or is empty changes nothing.
  pub trim : List (Sample A) → List (Sample A)
  trim rs = if ltb 120 (length rs) then take_last 100 rs else rs

  pub merge : List (Sample A) → Option (List (Sample A)) → ℕ → List (Sample A)
  merge cached none expected = cached
  merge cached (some []) expected = cached
  merge cached (some (r ∷ rs)) expected = trim (cached ++ add_empty_values cached (r ∷ rs) expected)

  -- A realtime message at a time: the window of the last 59 records and the new one.
  pub realtime : List (Sample A) → ℕ → Option A → List (Sample A)
  realtime prev now stats =
      add_empty_values prev (take_last 59 prev ++ record { created = some now; stats = stats } ∷ [])
        1000

-- The time data of a chart with the range that it was built for, and the cache entry "td".
pub record TimeEntry (D : Type 0) : Type 0 where
  pub time : ℕ
  pub ticks : D
  pub chart_time : String

-- `!lastCreated || cached.time >= lastCreated`
abbrev pub is_fresh : {D : Type 0} → ℕ → TimeEntry D → String → Bool
is_fresh last entry chart_time =
    str_eq entry.chart_time chart_time && (last == 0 || leb last entry.time)

-- What d3 builds the ticks and the domain from is a parameter: the chart time and the time now.
module _ {D : Type 0} (build : String → ℕ → D) where
  abbrev pub rebuild : String → ℕ → TimeEntry D
  rebuild chart_time now = record {
    time = now;
    ticks = build chart_time now;
    chart_time = chart_time;
  }

  -- getTimeData at a time: the data and the cache entry that it leaves.
  pub get_time_data : Option (TimeEntry D) → String → ℕ → ℕ → D × TimeEntry D
  get_time_data none chart_time last now = (build chart_time now, rebuild chart_time now)
  get_time_data (some entry) chart_time last now =
      if is_fresh last entry chart_time
      then (entry.ticks, entry)
      else (build chart_time now, rebuild chart_time now)

-- The keys of the keyboard navigation; any other key does nothing.
pub data Key : Type 0 where
  previous following other : Key

abbrev pub shift : Option ℕ → Option ℕ
shift none = none
shift (some i) = some (suc i)

-- `systems.findIndex((s) => s.id === id)` over the ids, none for -1
pub find_index : String → List String → Option ℕ
find_index id [] = none
find_index id (s ∷ rest) =
    let later = shift (find_index id rest) in if str_eq s id then some 0 else later

pub target_index : Key → ℕ → ℕ → Option ℕ
target_index previous current count = some ((current + count - 1) % count)
target_index following current count = some ((current + 1) % count)
target_index other current count = none

pub step_from : Option ℕ → Key → ℕ → Option ℕ
unfolding target_index
step_from none key count = none
step_from (some current) key count = if leb count 1 then none else target_index key current count

-- handleKeyUp: the index of the system to navigate to. `held` tells whether the event comes from a
-- text field or with a modifier key.
pub handle_key_up : Bool → Key → String → List String → Option ℕ
handle_key_up true key id systems = none
handle_key_up false key id systems = step_from (find_index id systems) key (length systems)
