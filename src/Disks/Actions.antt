-- ===== src/Disks/Actions.antt =====
-- The actions on a row: a refresh and a deletion, from their request to its end.
use bezel_custom.Prelude.{
  ◌≡◌, inl, inr, refl, sym, subst, String, Bool, true, false, Option, none, some, List, [], ◌∷◌,
  arith, str_eq, eq_iff, ◌||◌, ◌&&◌, if◌then◌else◌, Bool-cases,
}
use bezel_custom.NameSet.{has}
use bezel_custom.Disks.{Disk, ActionType, refreshing, deleting, State}

-- handleRowRefresh and handleDeleteDevice up to their requests, and what both do in `finally`
pub start_refresh : Disk → State → State
start_refresh d s =
    if str_eq d.system "" then s else record s { row_action = some (refreshing, d.id) }

pub start_delete : Disk → State → State
start_delete d s = record s { row_action = some (deleting, d.id) }

pub clear : String → Option (ActionType × String) → Option (ActionType × String)
clear id none = none
clear id (some action) = if str_eq action.1 id then none else some action

pub finish : String → State → State
unfolding clear
finish id s = record s { row_action = clear id s.row_action }

pub is_action : ActionType → ActionType → Bool
is_action refreshing refreshing = true
is_action deleting deleting = true
is_action _ _ = false

pub is_row : ActionType → Disk → State → Bool
unfolding is_action
is_row type d s = elim s.row_action [
  | none ↦ false
  | some action ↦ str_eq action.1 d.id && is_action action.0 type
]

pub refresh_disabled : Disk → State → Bool
unfolding is_row
refresh_disabled d s = is_row refreshing d s || is_row deleting d s

unfoldable pub delete_disabled : Disk → State → Bool
unfolding is_row
delete_disabled d s = is_row deleting d s

pub data Step : Type 0 where
  refreshes deletes ends : Disk → Step

pub step : Step → State → State
unfolding start_refresh start_delete finish
step (refreshes d) s = start_refresh d s
step (deletes d) s = start_delete d s
step (ends d) s = finish d.id s

unfoldable pub run : List Step → State → State
unfolding step
run [] s = s
run (x ∷ xs) s = run xs (step x s)

-- The ids of the disks whose requests are on their way, an id for each request.
abbrev drop_one : String → List String → List String
drop_one id [] = []
drop_one id (x ∷ xs) = let rest = drop_one id xs in if str_eq x id then xs else x ∷ rest

abbrev pub awaited : List Step → List String → List String
awaited [] ids = ids
awaited (refreshes d ∷ rest) ids =
    let more = awaited rest (d.id ∷ ids) in
    let same = awaited rest ids in if str_eq d.system "" then same else more
awaited (deletes d ∷ rest) ids = awaited rest (d.id ∷ ids)
awaited (ends d ∷ rest) ids = awaited rest (drop_one d.id ids)

-- A row that is shown as busy awaits an answer.
abbrev pub IsAwaited : List String → Option (ActionType × String) → Type 0
IsAwaited ids none = Unit
IsAwaited ids (some action) = has action.1 ids ≡ true

has-drop_one :
    (x id : String) (ids : List String)
    → str_eq x id ≡ false
    → has x ids ≡ true
    → has x (drop_one id ids) ≡ true
unfolding has
has-drop_one x id [] h there = there
has-drop_one x id (y ∷ ys) h there =
    ground (arith, has-drop_one x id ys h, eq_iff y id, eq_iff y x, eq_iff x id)

clear-IsAwaited :
    (id : String) (ids : List String) (action : Option (ActionType × String))
    → IsAwaited ids action
    → IsAwaited (drop_one id ids) (clear id action)
unfolding clear
clear-IsAwaited id ids none h = tt
clear-IsAwaited id ids (some action) h = elim (Bool-cases (str_eq action.1 id)) [
  | inl same ↦ rw same tt
  | inr other ↦ rw other (has-drop_one action.1 id ids other h)
]

has_first : (id : String) (ids : List String) → has id (id ∷ ids) ≡ true
unfolding has
has_first id ids = ground (arith, eq_iff id id)

refresh_nothing : (d : Disk) (s : State) → str_eq d.system "" ≡ true → start_refresh d s ≡ s
unfolding start_refresh
refresh_nothing d s e = rw e refl

refresh_begins :
    (d : Disk) (s : State)
    → str_eq d.system "" ≡ false
    → start_refresh d s ≡ record s { row_action = some (refreshing, d.id) }
unfolding start_refresh
refresh_begins d s e = rw e refl

-- x
pub run-IsAwaited :
    (steps : List Step) (s : State) (ids : List String)
    → IsAwaited ids s.row_action
    → IsAwaited (awaited steps ids) (run steps s).row_action
unfolding run step start_delete finish
run-IsAwaited [] s ids h = h
run-IsAwaited (refreshes d ∷ rest) s ids h = elim (Bool-cases (str_eq d.system "")) [
  | inl nameless ↦ rw nameless (
      subst (λ x. IsAwaited (awaited rest ids) (run rest x).row_action)
        (sym (refresh_nothing d s nameless)) (run-IsAwaited rest s ids h))
  | inr named ↦
      let begun : State = record s { row_action = some (refreshing, d.id) } in
      rw named (
        subst (λ x. IsAwaited (awaited rest (d.id ∷ ids)) (run rest x).row_action)
          (sym (refresh_begins d s named))
          (run-IsAwaited rest begun (d.id ∷ ids) (has_first d.id ids)))
]
run-IsAwaited (deletes d ∷ rest) s ids h =
    run-IsAwaited rest (start_delete d s) (d.id ∷ ids) (has_first d.id ids)
run-IsAwaited (ends d ∷ rest) s ids h =
    run-IsAwaited rest (finish d.id s) (drop_one d.id ids) (clear-IsAwaited d.id ids s.row_action h)
