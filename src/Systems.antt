-- ===== src/Systems.antt =====
-- internal/site/src/lib/systemsManager.ts: the stores of system records and the functions that write
-- to them. The widths of names are in tenths of a column.
pub mod Writes
pub mod Sync
pub mod Effects
pub mod Names
pub mod Directory
pub mod Display
pub mod Logout
mod Tests
use bezel_custom.Prelude.{
  ℕ, String, Bool, true, false, Option, none, some, List, [], ◌∷◌, ◌&&◌, min, length, ltb, ◌==◌,
  str_eq, if◌then◌else◌, not, ◌+◌,
}
use bezel_custom.Store.{MapStore}
use bezel_custom.Utils.Width.{visual_width}

pub data SystemStatus : Type 0 where
  up down pending paused : SystemStatus

-- `cpu` is absent where the record's info object has no such key.
pub record SystemInfo : Type 0 where
  pub cpu : Option ℕ
  pub version : String

-- Ids are not empty: PocketBase makes them. `info` is `none` where the column is null.
pub record SystemRecord : Type 0 where
  pub id : String
  pub name : String
  pub host : String
  pub port : String
  pub info : Option SystemInfo
  pub status : SystemStatus

abbrev max_system_name_length : ℕ
max_system_name_length = 220

-- A `throw`, which add and update catch and log.
pub data Checked : Type 0 where
  valid throws : Checked

unfoldable pub validate_system_info : SystemRecord → Checked
validate_system_info system = elim system.info [
  | none ↦ throws
  | some info ↦ elim info.cpu [ none ↦ throws | some _ ↦ valid ]
]

-- `prev_down_count` is the closure's variable, `redraws` counts the icons that were set.
pub record Favicon : Type 0 where
  pub prev_down_count : ℕ
  pub redraws : ℕ

pub update_favicon : ℕ → Favicon → Favicon
update_favicon count icon =
    if count == icon.prev_down_count
    then icon
    else record { prev_down_count = count; redraws = icon.redraws + 1 }

-- A key that is `undefined` is read and written as the property of that name.
abbrev pub property_key : Option String → String
property_key none = "undefined"
property_key (some k) = k

-- `changedSystem?.name || ""`
pub changed_name : Option SystemRecord → String
changed_name none = ""
changed_name (some r) = r.name

-- `oldName !== system.name`
pub renamed : Option String → String → Bool
renamed none name = true
renamed (some old) name = not (str_eq old name)

-- fetchSystems gives no records when the request fails.
abbrev pub fetched : Option (List SystemRecord) → List SystemRecord
fetched none = []
fetched (some rs) = rs

module _ (S : MapStore SystemRecord) where
  open S use {Store, empty, value, set_key, values, notifies}

  -- The module's state, with the stores of internal/site/src/lib/stores.ts.
  pub record State : Type 0 where
    pub by_name : Store
    pub by_id : Store
    pub up_systems : Store
    pub down_systems : Store
    pub paused_systems : Store
    pub longest_name : ℕ
    pub favicon : Favicon
    pub initialized : Bool

  pub start : State
  start = record {
    by_name = empty;
    by_id = empty;
    up_systems = empty;
    down_systems = empty;
    paused_systems = empty;
    longest_name = 80;
    favicon = record { prev_down_count = 0; redraws = 0 };
    initialized = false;
  }

  pub on_systems_changed : Option SystemRecord → State → State
  unfolding changed_name
  on_systems_changed changed s =
      let name_len : ℕ = min max_system_name_length (visual_width (changed_name changed)) in
      record s {
        longest_name = if ltb s.longest_name name_len then name_len else s.longest_name;
        favicon = update_favicon (length (values s.down_systems)) s.favicon;
      }

  -- removeFromStore for a store that is not `$allSystemsByName`
  pub remove_from : SystemRecord → Store → Store
  remove_from system store = set_key store system.id none

  -- The block for a deleted system. Its key has left `$allSystemsById` before the listener runs, so
  -- the last write finds nothing under the key, and the listener is not called a second time.
  pub purge : SystemRecord → State → State
  unfolding remove_from
  purge old s = record s {
    up_systems = remove_from old s.up_systems;
    down_systems = remove_from old s.down_systems;
    paused_systems = remove_from old s.paused_systems;
    by_id = remove_from old s.by_id;
  }

  -- The chain of tests on the new record's status.
  pub file_by_status : SystemStatus → SystemRecord → State → State
  unfolding remove_from
  file_by_status up new s = record s {
    up_systems = set_key s.up_systems new.id (some new);
    down_systems = remove_from new s.down_systems;
    paused_systems = remove_from new s.paused_systems;
  }
  file_by_status down new s = record s {
    down_systems = set_key s.down_systems new.id (some new);
    up_systems = remove_from new s.up_systems;
    paused_systems = remove_from new s.paused_systems;
  }
  file_by_status paused new s = record s {
    paused_systems = set_key s.paused_systems new.id (some new);
    up_systems = remove_from new s.up_systems;
    down_systems = remove_from new s.down_systems;
  }
  file_by_status pending new s = record s {
    up_systems = remove_from new s.up_systems;
    down_systems = remove_from new s.down_systems;
    paused_systems = remove_from new s.paused_systems;
  }

  -- The listener that init registers, at the changed key's old and new record.
  pub listener : Option SystemRecord → Option SystemRecord → State → State
  unfolding on_systems_changed purge file_by_status
  listener none none s = on_systems_changed none s
  listener (some old) none s = on_systems_changed none (purge old s)
  listener _ (some new) s = on_systems_changed (some new) (file_by_status new.status new s)

  -- `init()`, which only registers the listener
  pub init : State → State
  init s = if s.initialized then s else record s { initialized = true }

  -- `$allSystemsById.setKey(key, new)` with the call of the listener
  pub set_by_id : String → Option SystemRecord → State → State
  set_by_id key new s =
      let old : Option SystemRecord = value s.by_id key in
      let written : State = record s { by_id = set_key s.by_id key new } in
      if s.initialized && notifies old new then listener old new written else written

  -- The rest of add after validateSystemInfo has returned or thrown.
  pub add_checked : Checked → SystemRecord → State → State
  add_checked throws system s = s
  add_checked valid system s =
      set_by_id system.id (some system)
        (record s { by_name = set_key s.by_name system.name (some system) })

  pub add : SystemRecord → State → State
  add system s = add_checked (validate_system_info system) system s

  -- `$allSystemsById.get()[system.id]?.name`
  pub old_name : State → String → Option String
  old_name s key = elim (value s.by_id key) [ none ↦ none | some old ↦ some old.name ]

  pub forget_name : Option String → String → State → State
  unfolding renamed
  forget_name old name s =
      if renamed old name
      then record s { by_name = set_key s.by_name (property_key old) none }
      else s

  pub update_checked : Checked → SystemRecord → State → State
  update_checked throws system s = s
  update_checked valid system s = add system (forget_name (old_name s system.id) system.name s)

  pub update : SystemRecord → State → State
  update system s = update_checked (validate_system_info system) system s

  -- The last three writes of remove.
  pub unlist : SystemRecord → State → State
  unfolding remove_from
  unlist system s = record s {
    up_systems = remove_from system s.up_systems;
    down_systems = remove_from system s.down_systems;
    paused_systems = remove_from system s.paused_systems;
  }

  pub remove : SystemRecord → State → State
  remove system s =
      unlist system
        (set_by_id system.id none (record s { by_name = set_key s.by_name system.name none }))

  -- `actionFns[action]?.(record)`: an action of another name does nothing.
  pub dispatch : String → SystemRecord → State → State
  dispatch action system s =
      if str_eq action "create"
      then add system s
      else if str_eq action "update"
      then update system s
      else if str_eq action "delete"
      then remove system s
      else s

  pub add_all : List SystemRecord → State → State
  add_all [] s = s
  add_all (r ∷ rs) s = add_all rs (add r s)

  -- The second part tells whether refresh calls verifyAuth.
  pub refresh_with : List SystemRecord → State → State × Bool
  refresh_with [] s = (s, true)
  refresh_with (r ∷ rs) s = (add_all (r ∷ rs) s, false)

  pub refresh : Option (List SystemRecord) → State → State × Bool
  unfolding refresh_with
  refresh response s = refresh_with (fetched response) s

  -- The part of logOut (internal/site/src/lib/api.ts) that touches these stores. `set` calls the
  -- listener with no changed key.
  pub log_out : State → State
  log_out s =
      let cleared : State = record s { by_name = empty; by_id = empty } in
      if s.initialized then listener none none cleared else cleared
