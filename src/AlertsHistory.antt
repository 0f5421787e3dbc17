-- ===== src/AlertsHistory.antt =====
-- internal/site/src/components/routes/settings/alerts-history-data-table.tsx: the past alerts, their
-- deletion in batches and their export. `toLowerCase`, the formatting of dates and durations and the
-- translated labels are parameters.
pub mod Batches
pub mod Export
mod Tests
use Prim.Native.String
use bezel_custom.Prelude.{
  ℕ, suc, String, Bool, true, false, not, Option, none, some, List, [], ◌∷◌, ◌++◌, map, str_eq, ltb,
  ◌==◌, ◌||◌, if◌then◌else◌, keep, given,
}
use bezel_custom.Search.{includes}
use bezel_custom.QuietHours.{Action, create, update, delete}

-- `value` is the text of the number.
pub record HistoryRecord : Type 0 where
  pub id : String
  pub name : String
  pub system : String
  pub system_name : Option String
  pub value : String
  pub created : String
  pub resolved : Option String

-- what an event of the subscription does
pub on_event : Action → HistoryRecord → List HistoryRecord → List HistoryRecord
on_event create r current = r ∷ current
on_event update r current = map (λ x. if str_eq x.id r.id then r else x) current
on_event delete r current = keep (λ x. not (str_eq x.id r.id)) current

pub filter_row : (String → String) → HistoryRecord → String → Bool
unfolding includes
filter_row lower r filter =
    let search : String = lower filter in
    includes (lower (given r.system_name "")) search
    || includes (lower r.name) search
    || includes (lower r.created) search

-- What the deletion did: the batches that the server took, and whether it went through. If not, a
-- toast is shown and the selection is kept.
pub record Outcome : Type 0 where
  pub sent : List (List String)
  pub done : Bool

-- The server's answer to a batch, by how many it took before.
module _ (accepts : ℕ → List String → Bool) where
  pub last_batch : ℕ → List String → List (List String) → Outcome
  last_batch count [] sent = record { sent = sent; done = true }
  last_batch count (id ∷ ids) sent =
      if accepts count (id ∷ ids)
      then record { sent = sent ++ (id ∷ ids) ∷ []; done = true }
      else record { sent = sent; done = false }

  -- The loop: the ids that are left, the batch with its size, and what was sent.
  pub delete_loop : List String → List String → ℕ → ℕ → List (List String) → Outcome
  unfolding last_batch
  delete_loop [] batch in_batch count sent = last_batch count batch sent
  delete_loop (id ∷ ids) batch in_batch count sent =
      let full : List String = batch ++ id ∷ [] in
      let anew = delete_loop ids [] 0 (suc count) (sent ++ full ∷ []) in
      let on = delete_loop ids full (suc in_batch) count sent in
      if ltb 20 (suc in_batch)
      then (if accepts count full then anew else record { sent = sent; done = false })
      else on

  pub handle_bulk_delete : List String → Outcome
  unfolding delete_loop
  handle_bulk_delete selected_ids = delete_loop selected_ids [] 0 0 []

-- `join`
pub join : String → List String → String
join separator [] = ""
join separator (x ∷ []) = x
join separator (x ∷ y ∷ ys) = String.◌++◌ x (String.◌++◌ separator (join separator (y ∷ ys)))

-- The formats of a page: labels and units of alerts, dates and durations.
pub record Formats : Type 0 where
  pub label : String → Option String
  pub unit : String → Option String
  pub resolved_label : String
  pub active_label : String
  pub short_date : String → String
  pub duration : String → String → String

-- `x || y` of texts
abbrev pub or_text : Option String → String → String
or_text none y = y
or_text (some x) y = if str_eq x "" then y else x

pub cell_names : List String
cell_names = "system" ∷ "name" ∷ "value" ∷ "state" ∷ "created" ∷ "resolved" ∷ "duration" ∷ []

pub resolved_cells : Formats → Option String → String → String × String × String
resolved_cells f none created = (f.active_label, "", "")
resolved_cells f (some resolved) created =
    if str_eq resolved ""
    then (f.active_label, "", "")
    else (f.resolved_label, f.short_date resolved, f.duration created resolved)

pub cells : Formats → HistoryRecord → List String
unfolding resolved_cells
cells f r =
    let ends : String × String × String = resolved_cells f r.resolved r.created in
    or_text r.system_name r.system
    ∷ or_text (f.label r.name) r.name
    ∷ String.◌++◌ r.value (given (f.unit r.name) "")
    ∷ ends.0
    ∷ f.short_date r.created
    ∷ ends.1
    ∷ ends.2
    ∷ []

unfoldable pub csv_row : Formats → HistoryRecord → String
unfolding cells join
csv_row f r = join "," (cells f r)

-- The text of the file, none if no row is selected.
pub export_csv : Formats → List HistoryRecord → Option String
unfolding csv_row cell_names
export_csv f [] = none
export_csv f (r ∷ rs) = some (join "\n" (join "," cell_names ∷ map (csv_row f) (r ∷ rs)))
