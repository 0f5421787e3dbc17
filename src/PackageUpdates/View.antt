-- ===== src/PackageUpdates/View.antt =====
-- What the page of package updates shows and the clicks that it offers.
use bezel_custom.Prelude.{
  ℕ, ltb, String, Bool, true, false, not, none, some, List, [], ◌∷◌, map, ◌||◌, ◌&&◌, if◌then◌else◌,
  keep, length,
}
use bezel_custom.Search.{split_spaces, non_empty, every_term}
use bezel_custom.NameSet.{has, add, delete}
use bezel_custom.PackageUpdates.{PackageUpdate, State, or_none, is_active}

unfoldable pub security_updates : State → List PackageUpdate
security_updates s = keep (λ u. u.sec && not u.hd) (or_none s.updates)

unfoldable pub security_count : State → ℕ
unfolding security_updates
security_count s = length (security_updates s)

abbrev pub names : List PackageUpdate → List String
names updates = map (λ u. u.n) updates

-- `new Set(names)`
unfoldable pub set_of : List String → List String → List String
unfolding add
set_of current [] = current
set_of current (x ∷ xs) = set_of (add x current) xs

unfoldable pub select_security : State → State
unfolding security_updates set_of
select_security s = record s { selected = set_of [] (names (security_updates s)) }

unfoldable pub every_selected : List PackageUpdate → List String → Bool
unfolding has
every_selected [] selected = true
every_selected (u ∷ us) selected =
    let rest = every_selected us selected in if has u.n selected then rest else false

unfoldable pub delete_all : List PackageUpdate → List String → List String
unfolding delete
delete_all [] selected = selected
delete_all (u ∷ us) selected = delete_all us (delete u.n selected)

unfoldable pub toggle_names : List PackageUpdate → List String → List String
unfolding every_selected delete_all set_of
toggle_names updates selected =
    if every_selected updates selected
    then delete_all updates selected
    else set_of selected (names updates)

unfoldable pub toggle_one : String → State → State
unfolding has add delete
toggle_one name s = record s {
  selected = if has name s.selected then delete name s.selected else add name s.selected;
}

unfoldable pub is_applying : State → Bool
unfolding is_active
is_applying s = is_active s.applying

unfoldable pub is_hidden : State → Bool
is_hidden s = s.unsupported || elim s.updates [ none ↦ true | some us ↦ false ]

-- `toLowerCase`
module _ (lower : String → String) where
  unfoldable pub filtered_by : List String → List PackageUpdate → List PackageUpdate
  filtered_by [] updates = updates
  filtered_by (term ∷ terms) updates = keep (λ u. every_term (term ∷ terms) (lower u.n)) updates

  unfoldable pub filtered_updates : State → List PackageUpdate
  unfolding filtered_by
  filtered_updates s =
      filtered_by (non_empty (split_spaces (lower s.filter_text))) (or_none s.updates)

  unfoldable pub selectable_updates : State → List PackageUpdate
  unfolding filtered_updates
  selectable_updates s = keep (λ u. not u.hd) (filtered_updates s)

  unfoldable pub all_filtered_selected : State → Bool
  unfolding selectable_updates every_selected
  all_filtered_selected s =
      ltb 0 (length (selectable_updates s)) && every_selected (selectable_updates s) s.selected

  unfoldable pub toggle_all : State → State
  unfolding selectable_updates toggle_names
  toggle_all s = record s { selected = toggle_names (selectable_updates s) s.selected }
