-- ===== src/PackageUpdates/Steps.antt =====
-- The page of package updates over clicks and answers. Components and their events are those of
-- package-updates-table.tsx; a click that the page does not offer does nothing.
use bezel_custom.Prelude.{
  ℕ, ltb, String, Bool, not, Option, none, some, List, [], ◌∷◌, ◌||◌, ◌&&◌, if◌then◌else◌, length,
  get_elem?,
}
use bezel_custom.PackageUpdates.{
  PackageUpdate, ApplyStatus, State, or_none, receive_updates, open_page, first_check_failed,
  resume, poll, poll_answered, check_now, checked, check_failed, apply_selected, applied,
  apply_failed, set_hold, hold_done, hold_failed,
}
use bezel_custom.PackageUpdates.View.{
  security_count, select_security, is_applying, is_hidden, filtered_updates, toggle_all, toggle_one,
}

-- A row is its place among the rows that are shown.
pub data Click : Type 0 where
  click_security click_check click_apply click_all : Click
  click_row click_checkbox click_hold : ℕ → Click
  type_filter : String → Click

-- `disabled` of the buttons above the table
unfoldable pub is_busy : State → Bool
unfolding is_applying
is_busy s = is_applying s || s.checking

unfoldable pub when : Bool → State → State → State
when test next s = if test then next else s

unfoldable pub shows_rows : State → Bool
unfolding is_hidden
shows_rows s = not (is_hidden s) && ltb 0 (length (or_none s.updates))

-- A row that is held is not toggled: the row has the test, its checkbox is disabled.
unfoldable pub toggle_row : Option PackageUpdate → State → State
unfolding toggle_one
toggle_row none s = s
toggle_row (some u) s = if u.hd then s else toggle_one u.n s

unfoldable pub hold_row : Option PackageUpdate → State → State
unfolding set_hold
hold_row none s = s
hold_row (some u) s = set_hold u.n (not u.hd) s

module _ (lower : String → String) where
  unfoldable pub click : Click → State → State
  unfolding is_busy when shows_rows toggle_row hold_row security_count select_security check_now
      apply_selected toggle_all filtered_updates is_hidden
  click click_security s =
      when (not (is_hidden s) && ltb 0 (security_count s) && not (is_busy s)) (select_security s) s
  click click_check s = when (not (is_hidden s) && not (is_busy s)) (check_now s) s
  click click_apply s =
      when (shows_rows s && not (is_busy s) && ltb 0 (length s.selected)) (apply_selected s) s
  click click_all s = when (shows_rows s) (toggle_all lower s) s
  click (click_row i) s =
      when (shows_rows s) (toggle_row (get_elem? (filtered_updates lower s) i) s) s
  click (click_checkbox i) s =
      when (shows_rows s) (toggle_row (get_elem? (filtered_updates lower s) i) s) s
  click (click_hold i) s =
      when (shows_rows s) (hold_row (get_elem? (filtered_updates lower s) i) s) s
  click (type_filter text) s = when (shows_rows s) (record s { filter_text = text }) s

  unfoldable pub clicks : List Click → State → State
  unfolding click
  clicks [] s = s
  clicks (c ∷ cs) s = clicks cs (click c s)

pub data Event : Type 0 where
  clicked : Click → Event
  opened first_failed poll_turn : Event
  received recheck_received : Option (List PackageUpdate) → Event
  first_status : ApplyStatus → Event
  polled : ℕ → ApplyStatus → Event
  recheck_refused apply_refused hold_refused : Option String → Event
  apply_answered : ℕ → List String → Option ApplyStatus → Event
  hold_accepted : String → Bool → Event

module _ (lower : String → String) where
  unfoldable pub step : Event → State → State
  unfolding click open_page first_check_failed poll receive_updates checked resume poll_answered
      check_failed apply_failed hold_failed applied hold_done
  step (clicked c) s = click lower c s
  step opened s = open_page s
  step first_failed s = first_check_failed s
  step poll_turn s = poll s
  step (received answer) s = receive_updates answer s
  step (recheck_received answer) s = checked answer s
  step (first_status answer) s = resume answer s
  step (polled now answer) s = poll_answered now answer s
  step (recheck_refused message) s = check_failed message s
  step (apply_refused message) s = apply_failed message s
  step (hold_refused message) s = hold_failed message s
  step (apply_answered now packages answer) s = applied now packages answer s
  step (hold_accepted pkg value) s = hold_done pkg value s

  unfoldable pub run : List Event → State → State
  unfolding step
  run [] s = s
  run (e ∷ es) s = run es (step e s)
