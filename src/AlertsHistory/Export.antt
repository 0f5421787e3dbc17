-- ===== src/AlertsHistory/Export.antt =====
-- How many fields a row of the exported file has.
use Prim.Native.Char.{code}
use Prim.Native.String
use text.Mathlib.TextLemmas.{nil-append, cons-append}
use bezel_custom.Prelude.{
  ℕ, suc, ◌+◌, ◌≡◌, String, List, [], ◌∷◌, arith, ◌==◌, given, if◌then◌else◌, length,
}
use bezel_custom.AlertsHistory.{
  HistoryRecord, Formats, join, cells, csv_row, or_text, resolved_cells,
}

abbrev pub commas : String → ℕ
commas String.[] = 0
commas (String.◌∷◌ c s) = let rest = commas s in if code c == 44 then suc rest else rest

-- The commas of all texts.
abbrev pub total : List String → ℕ
total [] = 0
total (x ∷ xs) = commas x + total xs

commas-append : (s t : String) → commas (String.◌++◌ s t) ≡ commas s + commas t
commas-append String.[] t = rw (nil-append t) (omega arith)
commas-append (String.◌∷◌ c s) t = rw (cons-append c s t) (ground (arith, commas-append s t))

commas-join :
    (x : String) (xs : List String) → commas (join "," (x ∷ xs)) ≡ length xs + total (x ∷ xs)
unfolding join
commas-join x [] = omega arith
commas-join x (y ∷ ys) =
    rw
      (commas-append x (String.◌++◌ "," (join "," (y ∷ ys))), commas-append "," (join "," (y ∷ ys)))
      (omega (arith, commas-join y ys))

-- A row of the exported file has six commas and those in its seven cells, so that every comma in a
-- name or a date makes one field more than the head of the file has.
pub commas-csv_row :
    (f : Formats) (r : HistoryRecord) → commas (csv_row f r) ≡ 6 + total (cells f r)
unfolding csv_row cells join
commas-csv_row f r =
    let ends : String × String × String = resolved_cells f r.resolved r.created in
    commas-join (or_text r.system_name r.system) (
      or_text (f.label r.name) r.name
      ∷ String.◌++◌ r.value (given (f.unit r.name) "")
      ∷ ends.0
      ∷ f.short_date r.created
      ∷ ends.1
      ∷ ends.2
      ∷ [])
