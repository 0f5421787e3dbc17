-- ===== src/Disks.antt =====
-- internal/site/src/components/routes/system/smart-table.tsx: the disks of one system, or of all, kept
-- in step with the server, and the actions on a row.
pub mod Events
pub mod Actions
mod Tests
use bezel_custom.Prelude.{
  ℕ, ◌*◌, String, Bool, true, false, not, Option, none, some, List, [], ◌∷◌, str_eq, ltb, ◌==◌,
  ◌||◌, ◌&&◌, if◌then◌else◌, keep, length, given,
}
use bezel_custom.QuietHours.{Action, create, update, delete}

-- The fields of SmartDeviceRecord that the table reads; `hours` and `cycles` may be absent.
pub record Disk : Type 0 where
  pub id : String
  pub system : String
  pub name : String
  pub model : String
  pub state : String
  pub disk_type : String
  pub hours : Option ℕ
  pub cycles : Option ℕ

pub data ActionType : Type 0 where
  refreshing deleting : ActionType

-- `devices` is none until the first answer.
pub record State : Type 0 where
  pub devices : Option (List Disk)
  pub row_action : Option (ActionType × String)

-- the answer to the fetch, and its failure, which an abort of the request is too
pub fetched : List Disk → State → State
fetched disks s = record s { devices = some disks }

pub fetch_failed : Bool → State → State
fetch_failed is_abort s = if is_abort then s else record s { devices = some [] }

pub without_id : String → List Disk → List Disk
without_id id disks = keep (λ d. not (str_eq d.id id)) disks

unfoldable pub has_id : String → List Disk → Bool
has_id id [] = false
has_id id (d ∷ ds) = let rest = has_id id ds in if str_eq d.id id then true else rest

-- `next[existingIndex] = record`
pub replace : Disk → List Disk → List Disk
replace record' [] = []
replace record' (d ∷ ds) =
    let rest = replace record' ds in if str_eq d.id record'.id then record' ∷ ds else d ∷ rest

-- `!systemId || record.system === systemId`: none for the page of all systems
unfoldable pub in_scope : Option String → Disk → Bool
in_scope none d = true
in_scope (some system) d = str_eq d.system system

pub upsert : Disk → List Disk → List Disk
unfolding has_id replace
upsert record' disks = if has_id record'.id disks then replace record' disks else record' ∷ disks

pub is_delete : Action → Bool
is_delete delete = true
is_delete _ = false

-- what an event does to the list
unfoldable pub next_devices : Option String → Action → Disk → List Disk → List Disk
unfolding is_delete in_scope without_id upsert
next_devices scope action record' disks =
    if is_delete action
    then without_id record'.id disks
    else if not (in_scope scope record')
    then without_id record'.id disks
    else upsert record' disks

pub receive : Option String → Action → Disk → State → State
unfolding next_devices
receive scope action record' s = record s {
  devices = some (next_devices scope action record' (given s.devices []));
}

-- what the badge of a state and the cells of two counts show
pub data Variant : Type 0 where
  success danger warning : Variant

pub state_variant : String → Variant
state_variant status =
    if str_eq status "PASSED" then success else if str_eq status "FAILED" then danger else warning

-- The hours of a disk without any are 0, not N/A: `getValue() ?? 0`.
pub hours_cell : Disk → ℕ
hours_cell d = given d.hours 0 * 3600

-- the table is not there on the page of a system without disks, unless a column filter is set
pub is_hidden : Option String → ℕ → State → Bool
is_hidden none filters s = false
is_hidden (some system) filters s = length (given s.devices []) == 0 && filters == 0
