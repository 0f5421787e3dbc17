-- ===== src/Alerts.antt =====
-- The alert manager of internal/site/src/lib/alerts.ts. The store `$alerts` maps the id of a system to
-- a Map from alert names to records.
pub mod Lookup
pub mod Batch
pub mod Schedule
pub mod Sheet
pub mod Active
mod Tests
use bezel_custom.Prelude.{
  ℕ, ◌+◌, ◌≡◌, String, Bool, true, false, Option, none, some, List, [], ◌∷◌, leb, str_eq, ◌&&◌,
  ◌||◌, if◌then◌else◌,
}
use Prim.Native.String
use bezel_custom.Store.{MapStore}
use bezel_custom.Dict.{Dict, get, put, delete}

-- `value` is in tenths, the smallest step of an alert's slider.
pub record AlertRecord : Type 0 where
  pub id : String
  pub name : String
  pub system : String
  pub value : ℕ
  pub min : ℕ
  pub triggered : Bool

-- A message of the realtime subscription.
pub record Message : Type 0 where
  pub action : String
  pub alert : AlertRecord

-- The Map of a system that has none is empty.
abbrev pub or_new : Option (Dict AlertRecord) → Dict AlertRecord
or_new none = []
or_new (some m) = m

-- `${record.system}${record.name}`
pub batch_key : String → String → String
batch_key system name = String.◌++◌ system name

-- `groups[action]`, in the order of the batch
pub group : String → Dict Message → List AlertRecord
group action [] = []
group action ((k, m) ∷ batch) =
    let rest = group action batch in if str_eq m.action action then m.alert ∷ rest else rest

-- Milliseconds.
abbrev pub delay : ℕ
delay = 50

module _ (S : MapStore (Dict AlertRecord)) where
  open S use {Store, value, set_key}

  pub add_one : AlertRecord → Store → Store
  add_one alert s =
      set_key s alert.system (some (put (or_new (value s alert.system)) alert.name alert))

  pub add : List AlertRecord → Store → Store
  add [] s = s
  add (a ∷ rest) s = add rest (add_one a s)

  pub remove_one : AlertRecord → Store → Store
  remove_one alert s =
      set_key s alert.system (some (delete (or_new (value s alert.system)) alert.name))

  pub remove : List AlertRecord → Store → Store
  remove [] s = s
  remove (a ∷ rest) s = remove rest (remove_one a s)

  -- `actionFns[key]`
  pub action_fn : String → List AlertRecord → Store → Store
  action_fn action alerts s =
      if str_eq action "create" || str_eq action "update"
      then add alerts s
      else if str_eq action "delete"
      then remove alerts s
      else s

  -- `if (groups[key].length)`
  pub run_group : String → List AlertRecord → Store → Store
  run_group action [] s = s
  run_group action (a ∷ rest) s = action_fn action (a ∷ rest) s

  -- What the timer of batchUpdate runs, before it clears the batch.
  pub flush : Dict Message → Store → Store
  flush batch s =
      run_group "delete" (group "delete" batch)
        (run_group "update" (group "update" batch) (run_group "create" (group "create" batch) s))

  -- The manager: the store, the batch and the time at which the pending timer fires.
  pub record Manager : Type 0 where
    pub store : Store
    pub batch : Dict Message
    pub timer : Option ℕ

  -- batchUpdate at a time: a new message restarts the timer.
  pub batch_update : ℕ → Message → Manager → Manager
  batch_update now m s = record s {
    batch = put s.batch (batch_key m.alert.system m.alert.name) m;
    timer = some (now + delay);
  }

  -- The timer that is set, at a time: it runs if it is due.
  pub fire : Option ℕ → ℕ → Manager → Manager
  fire none now s = s
  fire (some due) now s =
      if leb due now then record { store = flush s.batch s.store; batch = []; timer = none } else s

  -- The event loop at a time.
  pub elapse : ℕ → Manager → Manager
  unfolding fire
  elapse now s = fire s.timer now s

  pub refresh : List AlertRecord → Manager → Manager
  refresh records s = record s { store = add records s.store }
