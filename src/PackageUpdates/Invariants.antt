-- ===== src/PackageUpdates/Invariants.antt =====
-- What is selected after any clicks and answers.
use bezel_custom.Prelude.{
  ◌≡◌, refl, String, Bool, true, false, not, Option, none, some, List, [], ◌∷◌, keep, ◌⊎◌, sym, All,
  All-always, All-keep, Bool-cases, inl, inr, get_elem?, ℕ, subst,
}
use bezel_custom.PackageUpdates.{
  PackageUpdate, ApplyStatus, JobStatus, resume_at, poll_at, applied_at, idle, running, done,
  failed, unreachable, State, or_none, lists_name, receive_updates, open_page, first_check_failed,
  resume, poll, poll_answered, check_now, checked, check_failed, apply_selected, apply_names,
  applied, apply_failed, set_hold, hold_done, hold_failed, is_active, start_over,
}
use bezel_custom.PackageUpdates.Steps.{
  Click, click_security, click_check, click_apply, click_all, click_row, click_checkbox, click_hold,
  type_filter, when, toggle_row, click, shows_rows, hold_row, Event, clicked, opened, first_failed,
  poll_turn, received, recheck_received, first_status, polled, recheck_refused, apply_refused,
  hold_refused, apply_answered, hold_accepted, step, run,
}
use bezel_custom.PackageUpdates.View.{select_security, toggle_all, filtered_updates}
use bezel_custom.PackageUpdates.Holds.{
  IsApplicable, IsListed, set_hold-IsApplicable, set_hold-IsListed,
}
use bezel_custom.PackageUpdates.Selection.{click-All, is_hold, is_free, lists_name-keep}

module _ (s : State) where
  when-updates :
      (test : Bool) (next : State)
      → next.updates ≡ s.updates
      → (when test next s).updates ≡ s.updates
  unfolding when
  when-updates true next e = e
  when-updates false next e = refl

  apply_names-updates : (xs : List String) → (apply_names xs s).updates ≡ s.updates
  unfolding apply_names
  apply_names-updates [] = refl
  apply_names-updates (x ∷ xs) = refl

  toggle_row-updates : (row : Option PackageUpdate) → (toggle_row row s).updates ≡ s.updates
  unfolding toggle_row
  toggle_row-updates none = refl
  toggle_row-updates (some u) = elim (Bool-cases u.hd) [
    | inl held ↦ rw held refl
    | inr free ↦ rw free refl
  ]

click_kind : (c : Click) → ((i : ℕ) × (c ≡ click_hold i)) ⊎ (is_hold c ≡ false)
click_kind (click_hold i) = inl (i, refl)
click_kind click_security = inr refl
click_kind click_check = inr refl
click_kind click_apply = inr refl
click_kind click_all = inr refl
click_kind (click_row i) = inr refl
click_kind (click_checkbox i) = inr refl
click_kind (type_filter text) = inr refl

-- A click changes no list of updates, if it holds no package.
click-updates :
    (lower : String → String) (c : Click) (s : State)
    → is_hold c ≡ false
    → (click lower c s).updates ≡ s.updates
unfolding click check_now apply_selected toggle_all select_security
click-updates lower click_security s e = when-updates s _ (select_security s) refl
click-updates lower click_check s e = when-updates s _ (check_now s) refl
click-updates lower click_apply s e =
    when-updates s _ (apply_selected s) (apply_names-updates s s.selected)
click-updates lower click_all s e = when-updates s (shows_rows s) (toggle_all lower s) refl
click-updates lower (click_row i) s e =
    when-updates s (shows_rows s) (toggle_row (get_elem? (filtered_updates lower s) i) s)
      (toggle_row-updates s (get_elem? (filtered_updates lower s) i))
click-updates lower (click_checkbox i) s e =
    when-updates s (shows_rows s) (toggle_row (get_elem? (filtered_updates lower s) i) s)
      (toggle_row-updates s (get_elem? (filtered_updates lower s) i))
click-updates lower (click_hold i) s e = cc
click-updates lower (type_filter text) s e =
    when-updates s (shows_rows s) (record s { filter_text = text }) refl

-- The row that is held, of either invariant.
hold_row-All :
    (Q : State → Type 0) (s : State) (row : Option PackageUpdate)
    → ((pkg : String) (value : Bool) → Q (set_hold pkg value s))
    → Q s
    → Q (hold_row row s)
unfolding hold_row
hold_row-All Q s none f q = q
hold_row-All Q s (some u) f q = f u.n (not u.hd)

hold_click :
    (Q : State → Type 0) (lower : String → String) (i : ℕ) (s : State)
    → ((pkg : String) (value : Bool) → Q (set_hold pkg value s))
    → Q s
    → Q (click lower (click_hold i) s)
unfolding click when
hold_click Q lower i s f q = elim (Bool-cases (shows_rows s)) [
  | inl shown ↦ rw shown (hold_row-All Q s (get_elem? (filtered_updates lower s) i) f q)
  | inr hidden ↦ rw hidden q
]

-- What an answer leaves: the updates and the selection, or nothing selected.
abbrev IsCalm : State → State → Type 0
IsCalm s next = (next.selected ≡ []) ⊎ ((next.updates ≡ s.updates) × (next.selected ≡ s.selected))

resume_at-IsCalm :
    (j : JobStatus) (answer : ApplyStatus) (s : State) → IsCalm s (resume_at j answer s)
unfolding resume_at
resume_at-IsCalm running answer s = inr (refl, refl)
resume_at-IsCalm idle answer s = inr (refl, refl)
resume_at-IsCalm done answer s = inr (refl, refl)
resume_at-IsCalm failed answer s = inr (refl, refl)
resume_at-IsCalm unreachable answer s = inr (refl, refl)

poll-IsCalm : (s : State) → IsCalm s (poll s)
unfolding poll
poll-IsCalm s = elim (Bool-cases (is_active s.applying)) [
  | inl active ↦ rw active (inr (refl, refl))
  | inr rests ↦ rw rests (inr (refl, refl))
]

poll_at-IsCalm :
    (j : JobStatus) (now : ℕ) (answer : ApplyStatus) (s : State) → IsCalm s (poll_at j now answer s)
unfolding poll_at start_over
poll_at-IsCalm running now answer s = inr (refl, refl)
poll_at-IsCalm idle now answer s = inl refl
poll_at-IsCalm done now answer s = inl refl
poll_at-IsCalm failed now answer s = inl refl
poll_at-IsCalm unreachable now answer s = inr (refl, refl)

applied_at-IsCalm :
    (j : JobStatus) (now : ℕ) (packages : List String) (answer : ApplyStatus) (s : State)
    → IsCalm s (applied_at j now packages answer s)
unfolding applied_at
applied_at-IsCalm running now packages answer s = inr (refl, refl)
applied_at-IsCalm idle now packages answer s = inr (refl, refl)
applied_at-IsCalm done now packages answer s = inl refl
applied_at-IsCalm failed now packages answer s = inl refl
applied_at-IsCalm unreachable now packages answer s = inr (refl, refl)

applied-IsCalm :
    (now : ℕ) (packages : List String) (answer : Option ApplyStatus) (s : State)
    → IsCalm s (applied now packages answer s)
unfolding applied
applied-IsCalm now packages none s = inr (refl, refl)
applied-IsCalm now packages (some answer) s = applied_at-IsCalm answer.status now packages answer s

abbrev pub is_receipt : Event → Bool
is_receipt (received answer) = true
is_receipt (recheck_received answer) = true
is_receipt _ = false

-- A property of names that holds of the free ones of a list and that a hold keeps.
module _ (P : Option (List PackageUpdate) → String → Type 0)
    (free : (o : Option (List PackageUpdate)) (name : String)
      → lists_name name (keep is_free (or_none o)) ≡ true
      → P o name)
    (hold_keeps : (s : State) (pkg : String) (value : Bool)
      → All (P s.updates) s.selected
      → All (P (set_hold pkg value s).updates) (set_hold pkg value s).selected)
    (lower : String → String) where
  abbrev Good : State → Type 0
  Good s = All (P s.updates) s.selected

  same_updates :
      (s next : State) → next.updates ≡ s.updates → All (P s.updates) next.selected → Good next
  same_updates s next e h = subst (λ o. All (P o) next.selected) (sym e) h

  click-Good : (c : Click) (s : State) → Good s → Good (click lower c s)
  click-Good c s h = elim (click_kind c) [
    | inl (i, e) ↦ rw e (hold_click Good lower i s (λ pkg value. hold_keeps s pkg value h) h)
    | inr other ↦
        same_updates s (click lower c s) (click-updates lower c s other)
          (click-All (P s.updates) lower s (free s.updates) c other h)
  ]

  calm-Good : (s next : State) → IsCalm s next → Good s → Good next
  calm-Good s next (inl e) h = subst (All (P next.updates)) (sym e) tt
  calm-Good s next (inr (same, kept)) h =
      same_updates s next same (subst (All (P s.updates)) (sym kept) h)

  step-Good : (e : Event) (s : State) → is_receipt e ≡ false → Good s → Good (step lower e s)
  unfolding step resume poll_answered open_page first_check_failed check_failed apply_failed
      hold_failed hold_done
  step-Good (clicked c) s e h = click-Good c s h
  step-Good opened s e h = tt
  step-Good first_failed s e h = h
  step-Good poll_turn s e h = calm-Good s (poll s) (poll-IsCalm s) h
  step-Good (received answer) s e h = cc
  step-Good (recheck_received answer) s e h = cc
  step-Good (first_status answer) s e h =
      calm-Good s (resume answer s) (resume_at-IsCalm answer.status answer s) h
  step-Good (polled now answer) s e h =
      calm-Good s (poll_answered now answer s) (poll_at-IsCalm answer.status now answer s) h
  step-Good (recheck_refused message) s e h = h
  step-Good (apply_refused message) s e h = h
  step-Good (hold_refused message) s e h = h
  step-Good (apply_answered now packages answer) s e h =
      calm-Good s (applied now packages answer s) (applied-IsCalm now packages answer s) h
  step-Good (hold_accepted pkg value) s e h = h

keep-All : (xs : List String) (p : String → Bool) → All (λ x. p x ≡ true) (keep p xs)
keep-All xs p =
    All-keep {0, 0, 0} (λ x. Unit) (λ x. p x ≡ true) p xs (λ x e u. e)
      (All-always (λ x. Unit) xs (λ x. tt))

step_calm-IsListed :
    (lower : String → String) (e : Event) (s : State)
    → is_receipt e ≡ false
    → IsListed s
    → IsListed (step lower e s)
step_calm-IsListed lower e s calm h =
    step-Good (λ o name. lists_name name (or_none o) ≡ true)
      (λ o name. lists_name-keep name is_free (or_none o)) set_hold-IsListed lower e s calm h

step-IsListed :
    (lower : String → String) (e : Event) (s : State) → IsListed s → IsListed (step lower e s)
unfolding step receive_updates checked
step-IsListed lower (received answer) s h =
    keep-All s.selected (λ name. lists_name name (or_none answer))
step-IsListed lower (recheck_received answer) s h =
    keep-All s.selected (λ name. lists_name name (or_none answer))
step-IsListed lower (clicked c) s h = step_calm-IsListed lower (clicked c) s refl h
step-IsListed lower opened s h = step_calm-IsListed lower opened s refl h
step-IsListed lower first_failed s h = step_calm-IsListed lower first_failed s refl h
step-IsListed lower poll_turn s h = step_calm-IsListed lower poll_turn s refl h
step-IsListed lower (first_status answer) s h =
    step_calm-IsListed lower (first_status answer) s refl h
step-IsListed lower (polled now answer) s h = step_calm-IsListed lower (polled now answer) s refl h
step-IsListed lower (recheck_refused m) s h = step_calm-IsListed lower (recheck_refused m) s refl h
step-IsListed lower (apply_refused m) s h = step_calm-IsListed lower (apply_refused m) s refl h
step-IsListed lower (hold_refused m) s h = step_calm-IsListed lower (hold_refused m) s refl h
step-IsListed lower (apply_answered now ps answer) s h =
    step_calm-IsListed lower (apply_answered now ps answer) s refl h
step-IsListed lower (hold_accepted pkg value) s h =
    step_calm-IsListed lower (hold_accepted pkg value) s refl h

-- If every selected package is a listed update, this stays so through any clicks and any answers,
-- in any order, new lists of updates included.
pub run-IsListed :
    (lower : String → String) (es : List Event) (s : State) → IsListed s → IsListed (run lower es s)
unfolding run
run-IsListed lower [] s h = h
run-IsListed lower (e ∷ es) s h = run-IsListed lower es (step lower e s) (step-IsListed lower e s h)

-- If every selected package is a listed update that is not held, this stays so through any clicks
-- on the page and any answers about jobs, holds and failures, in any order, as long as no new list
-- of updates is received.
pub run-IsApplicable :
    (lower : String → String) (es : List Event) (s : State)
    → All (λ e. is_receipt e ≡ false) es
    → IsApplicable s
    → IsApplicable (run lower es s)
unfolding run
run-IsApplicable lower [] s calm h = h
run-IsApplicable lower (e ∷ es) s calm h = run-IsApplicable lower es (step lower e s) calm.1 (
    step-Good (λ o name. lists_name name (keep is_free (or_none o)) ≡ true) (λ o name h. h)
      set_hold-IsApplicable lower e s calm.0 h)
