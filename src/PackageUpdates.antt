-- ===== src/PackageUpdates.antt =====
-- internal/site/src/components/package-updates-table/package-updates-table.tsx: the packages of a
-- system that can be updated, which of them are selected, and the job that installs them. Requests
-- to the server and toasts are lists in the state, the newest last; an answer is an event of its own.
pub mod Selection
pub mod Holds
pub mod Invariants
pub mod Jobs
pub mod View
pub mod Toggles
pub mod Steps
mod Tests
use bezel_custom.NameSet.{delete}
use bezel_custom.Prelude.{
  ℕ, String, Bool, true, false, not, Option, none, some, List, [], ◌∷◌, ◌++◌, map, str_eq, ◌==◌,
  ◌||◌, ◌&&◌, if◌then◌else◌, keep, given, length,
}

pub record PackageUpdate : Type 0 where
  pub n : String
  pub cv : Option String
  pub av : Option String
  -- whether it is held, and whether it is a security update
  pub hd : Bool
  pub sec : Bool

pub data JobStatus : Type 0 where
  idle running done failed unreachable : JobStatus

pub record ApplyStatus : Type 0 where
  pub status : JobStatus
  pub packages : Option (List String)
  pub message : Option String
  pub started_at : Option ℕ
  pub finished_at : Option ℕ

pub data Request : Type 0 where
  check : Bool → Request
  job_status : Request
  apply : List String → Request
  hold : String → Bool → Request

-- A toast, with what varies in its text; an error has a message or the text of where it comes from.
pub data Toast : Type 0 where
  packages_updated : Option ℕ → Toast
  update_failed : Option String → Toast
  check_error start_error hold_error : Option String → Toast
  held unheld : String → Toast

-- `selected` is a Set: its names in the order of insertion.
pub record State : Type 0 where
  pub updates : Option (List PackageUpdate)
  pub selected : List String
  pub checking : Bool
  pub applying : Option ApplyStatus
  pub unsupported : Bool
  pub filter_text : String
  pub announced_job : ℕ
  pub requests : List Request
  pub toasts : List Toast

pub send : Request → State → State
send r s = record s { requests = s.requests ++ r ∷ [] }

pub toast : Toast → State → State
toast message s = record s { toasts = s.toasts ++ message ∷ [] }

-- whether an update of the list has the name
pub lists_name : String → List PackageUpdate → Bool
lists_name name [] = false
lists_name name (u ∷ us) = let rest = lists_name name us in if str_eq u.n name then true else rest

-- `updates ?? []`, of what an answer brings and of the state
abbrev pub or_none : Option (List PackageUpdate) → List PackageUpdate
or_none updates = given updates []

-- fetchUpdates once its request is answered
pub receive_updates : Option (List PackageUpdate) → State → State
unfolding lists_name
receive_updates answer s = record s {
  updates = some (or_none answer);
  selected = keep (λ name. lists_name name (or_none answer)) s.selected;
}

-- the effect of a page that is opened, or opened for another system
pub open_page : State → State
unfolding send
open_page s = send job_status (
    send (check false) (record s {
      updates = none;
      selected = [];
      unsupported = false;
      applying = none;
      announced_job = 0;
    }))

pub first_check_failed : State → State
first_check_failed s = record s { unsupported = true }

-- an apply that was started earlier is shown again
pub resume_at : JobStatus → ApplyStatus → State → State
resume_at running answer s = record s {
  announced_job = given answer.started_at 0;
  applying = some answer;
}
resume_at _ answer s = s

pub resume : ApplyStatus → State → State
unfolding resume_at
resume answer s = resume_at answer.status answer s

-- whether the interval that polls is set, and what a turn of it does
pub is_active_at : JobStatus → Bool
is_active_at running = true
is_active_at unreachable = true
is_active_at _ = false

pub is_active : Option ApplyStatus → Bool
unfolding is_active_at
is_active none = false
is_active (some a) = is_active_at a.status

pub poll : State → State
unfolding is_active send
poll s = if is_active s.applying then send job_status s else s

-- the toast of a job that is over, for the first answer that tells it
abbrev pub count : Option (List String) → Option ℕ
count none = none
count (some names) = some (length names)

pub tell_result : JobStatus → ApplyStatus → State → State
unfolding toast
tell_result done answer s = toast (packages_updated (count answer.packages)) s
tell_result failed answer s = toast (update_failed answer.message) s
tell_result _ answer s = s

pub announce : ℕ → ApplyStatus → State → State
unfolding tell_result
announce key answer s =
    if s.announced_job == key
    then s
    else tell_result answer.status answer (record s { announced_job = key })

-- The list is fetched anew with nothing selected.
pub start_over : State → State
unfolding send
start_over s = send (check false) (record s { selected = [] })

-- the answer to a poll, at a time of the clock
pub poll_at : JobStatus → ℕ → ApplyStatus → State → State
unfolding announce start_over
poll_at running now answer s = record s { applying = some answer }
poll_at unreachable now answer s = record s {
  applying = some (record (given s.applying answer) { status = unreachable });
}
poll_at _ now answer s =
    start_over (announce (given answer.finished_at now) answer (record s { applying = none }))

pub poll_answered : ℕ → ApplyStatus → State → State
unfolding poll_at
poll_answered now answer s = poll_at answer.status now answer s

-- checkNow, until its answer and with it
pub check_now : State → State
unfolding send
check_now s = send (check true) (record s { checking = true })

pub checked : Option (List PackageUpdate) → State → State
unfolding receive_updates
checked answer s = record (receive_updates answer s) { checking = false }

pub check_failed : Option String → State → State
unfolding toast
check_failed message s = record (toast (check_error message) s) { checking = false }

-- applySelected, until its answer and with it; the answer of an old agent may have no status
pub apply_names : List String → State → State
unfolding send
apply_names [] s = s
apply_names (name ∷ names) s = send (apply (name ∷ names)) s

pub apply_selected : State → State
unfolding apply_names
apply_selected s = apply_names s.selected s

pub follow_job : ApplyStatus → State → State
follow_job status s = record s { announced_job = 0; applying = some status }

pub applied_at : JobStatus → ℕ → List String → ApplyStatus → State → State
unfolding toast start_over follow_job
applied_at done now packages answer s = start_over (
    toast (packages_updated (some (length packages)))
      (record s { announced_job = given answer.finished_at now }))
applied_at failed now packages answer s = start_over (
    toast (update_failed answer.message)
      (record s { announced_job = given answer.finished_at now }))
applied_at _ now packages answer s = follow_job answer s

pub applied : ℕ → List String → Option ApplyStatus → State → State
unfolding applied_at follow_job
applied now packages none s =
    follow_job
      (record {
        status = running;
        packages = some packages;
        message = none;
        started_at = none;
        finished_at = none;
      })
      s
applied now packages (some answer) s = applied_at answer.status now packages answer s

pub apply_failed : Option String → State → State
unfolding toast
apply_failed message s = toast (start_error message) s

-- setHold, until its answer and with it
pub mark_held : String → Bool → List PackageUpdate → List PackageUpdate
mark_held pkg value updates =
    map (λ u. if str_eq u.n pkg then record u { hd = value } else u) updates

pub mark_updates : String → Bool → Option (List PackageUpdate) → Option (List PackageUpdate)
unfolding mark_held
mark_updates pkg value none = none
mark_updates pkg value (some updates) = some (mark_held pkg value updates)

pub set_hold : String → Bool → State → State
unfolding mark_updates delete send
set_hold pkg value s = send (hold pkg value) (record s {
  updates = mark_updates pkg value s.updates;
  selected = if value then delete pkg s.selected else s.selected;
})

pub hold_done : String → Bool → State → State
unfolding toast send
hold_done pkg value s = send (check false) (toast (if value then held pkg else unheld pkg) s)

pub hold_failed : Option String → State → State
unfolding toast send
hold_failed message s = send (check false) (toast (hold_error message) s)
