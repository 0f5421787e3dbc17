-- ===== src/AlertsHistory/Tests.antt =====
-- Past alerts at concrete inputs.
use bezel_custom.Prelude.{ℕ, ◌≡◌, refl, String, Bool, some, List, [], ◌∷◌, ltb}
use bezel_custom.AlertsHistory.{HistoryRecord, Formats, csv_row, handle_bulk_delete}
use bezel_custom.AlertsHistory.Batches.{IsOutcome, handle_bulk_delete-IsOutcome}

abbrev record_of : HistoryRecord
record_of = record {
  id = "h";
  name = "CPU";
  system = "s";
  system_name = some "nas, cellar";
  value = "93.5";
  created = "2025-01-05 15:04:00Z";
  resolved = some "2025-01-05 17:04:00Z";
}

abbrev formats : Formats
formats = record {
  label = λ name. some "CPU Usage";
  unit = λ name. some "%";
  resolved_label = "Resolved";
  active_label = "Active";
  short_date = λ date. "Jan 5, 3:04 PM";
  duration = λ created resolved. "2h";
}

-- Three of its seven cells have a comma.
ten_fields :
    csv_row formats record_of
    ≡ "nas, cellar,CPU Usage,93.5%,Resolved,Jan 5, 3:04 PM,Jan 5, 3:04 PM,2h"
unfolding csv_row
ten_fields = refl

abbrev first_only : ℕ → List String → Bool
first_only count batch = ltb count 1

handle_bulk_delete-IsOutcome_example :
    IsOutcome ("a" ∷ "b" ∷ "c" ∷ []) (handle_bulk_delete first_only ("a" ∷ "b" ∷ "c" ∷ []))
handle_bulk_delete-IsOutcome_example =
    handle_bulk_delete-IsOutcome first_only ("a" ∷ "b" ∷ "c" ∷ [])
