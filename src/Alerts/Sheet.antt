-- ===== src/Alerts/Sheet.antt =====
-- internal/site/src/components/alerts/alerts-sheet.tsx: the switches and sliders that set the alerts
-- of one system, or of all, and the two debounced requests that they share. Values are in tenths.
pub mod Requests
use bezel_custom.Prelude.{
  ℕ, String, Bool, true, false, not, Option, none, some, List, [], ◌∷◌, map, str_eq, ◌==◌, ◌||◌,
  ◌&&◌, if◌then◌else◌, given, keep, ltb, length,
}
use bezel_custom.Dict.{Dict, get, delete}
use bezel_custom.Alerts.{AlertRecord, or_new}
use bezel_custom.Utils.Timers.{Debounced, invoke, elapse}

-- The fields of alertInfo that the sheet reads.
pub record AlertInfo : Type 0 where
  pub has_single_desc : Bool
  pub start : Option ℕ
  pub invert : Bool

abbrev usual : AlertInfo
usual = record { has_single_desc = false; start = none; invert = false }

abbrev of_load : AlertInfo
of_load = record { has_single_desc = false; start = some 100; invert = false }

abbrev pub alert_info : Dict AlertInfo
alert_info =
    ("Status", record { has_single_desc = true; start = none; invert = false })
    ∷ ("CPU", usual)
    ∷ ("Memory", usual)
    ∷ ("Disk", usual)
    ∷ ("Bandwidth", usual)
    ∷ ("GPU", usual)
    ∷ ("Temperature", usual)
    ∷ ("LoadAvg1", of_load)
    ∷ ("LoadAvg5", of_load)
    ∷ ("LoadAvg15", of_load)
    ∷ ("Battery", record { has_single_desc = false; start = some 200; invert = true })
    ∷ []

-- The state of an AlertContent, with the props that tell which alerts it is about.
pub record Content : Type 0 where
  pub alert_key : String
  pub system : String
  pub is_global : Bool
  pub checked : Bool
  pub min : ℕ
  pub value : ℕ

pub record Upsert : Type 0 where
  pub name : String
  pub value : ℕ
  pub min : ℕ
  pub systems : List String

pub record Deletion : Type 0 where
  pub name : String
  pub systems : List String

-- What the contents share: the two debounced functions of the module, the alerts when the tab of all
-- systems was opened, its checkbox, and the ids of all systems.
pub record Sheet : Type 0 where
  pub upserts : Debounced Upsert
  pub deletions : Debounced Deletion
  pub initial_alerts : Dict (Dict AlertRecord)
  pub overwrite_existing : Bool
  pub systems : List String

-- Milliseconds.
abbrev pub alert_debounce : ℕ
alert_debounce = 100

-- `x || y`, of an alert's number
abbrev or_else : Option ℕ → ℕ → ℕ
or_else none y = y
or_else (some x) y = if x == 0 then y else x

abbrev value_of : Option AlertRecord → Option ℕ
value_of none = none
value_of (some a) = some a.value

abbrev min_of : Option AlertRecord → Option ℕ
min_of none = none
min_of (some a) = some a.min

abbrev is_there : Option AlertRecord → Bool
is_there none = false
is_there (some a) = true

-- the initial state of a content, for the alert that there is
pub new_content : String → AlertInfo → String → Bool → Option AlertRecord → Content
new_content key info system is_global alert = record {
  alert_key = key;
  system = system;
  is_global = is_global;
  checked = if is_global then false else is_there alert;
  min = or_else (min_of alert) 10;
  value = or_else (value_of alert) (if info.has_single_desc then 0 else given info.start 800);
}

-- `initialAlertsState[id]?.has(name)`
pub has_alert : Dict (Dict AlertRecord) → String → String → Bool
unfolding get
has_alert alerts id name = is_there (get (or_new (get alerts id)) name)

-- The checkbox is about the tab of all systems only.
pub overwrites : Content → Sheet → Bool
overwrites c sheet = c.is_global && sheet.overwrite_existing

unfoldable pub get_system_ids : Content → Sheet → List String
unfolding has_alert
get_system_ids c sheet =
    if not c.is_global
    then c.system ∷ []
    else keep
        (λ id. sheet.overwrite_existing || not (has_alert sheet.initial_alerts id c.alert_key))
        sheet.systems

pub send_upsert : ℕ → ℕ → ℕ → Content → Sheet → Sheet
unfolding get_system_ids invoke
send_upsert now min value c sheet =
    let ids : List String = get_system_ids c sheet in
    if ltb 0 (length ids)
    then record sheet {
      upserts =
          invoke alert_debounce now
            (record { name = c.alert_key; value = value; min = min; systems = ids }) sheet.upserts;
    }
    else sheet

pub forget_alerts : String → Dict (Dict AlertRecord) → Dict (Dict AlertRecord)
unfolding delete
forget_alerts name alerts = map (λ entry. (entry.0, delete entry.1 name)) alerts

pub send_deletion : ℕ → Content → Sheet → Sheet
unfolding get_system_ids invoke overwrites forget_alerts
send_deletion now c sheet = record sheet {
  deletions =
      invoke alert_debounce now (record { name = c.alert_key; systems = get_system_ids c sheet })
        sheet.deletions;
  initial_alerts =
      if overwrites c sheet
      then forget_alerts c.alert_key sheet.initial_alerts
      else sheet.initial_alerts;
}

-- the switch, at a time of the clock
pub switch : ℕ → Bool → Content → Sheet → Content × Sheet
unfolding send_upsert send_deletion
switch now checked c sheet = (
  record c { checked = checked },
  if checked then send_upsert now c.min c.value c sheet else send_deletion now c sheet,
)

-- the sliders, while they move and when they are let go
pub slide_value : ℕ → Content → Content
slide_value value c = record c { value = value }

pub slide_min : ℕ → Content → Content
slide_min min c = record c { min = min }

pub commit_value : ℕ → ℕ → Content → Sheet → Sheet
unfolding send_upsert
commit_value now value c sheet = send_upsert now c.min value c sheet

pub commit_min : ℕ → ℕ → Content → Sheet → Sheet
unfolding send_upsert
commit_min now min c sheet = send_upsert now min c.value c sheet

-- Time passes: the requests that are due are sent.
pub pass : ℕ → Sheet → Sheet
unfolding elapse
pass now sheet = record sheet {
  upserts = elapse alert_debounce now sheet.upserts;
  deletions = elapse alert_debounce now sheet.deletions;
}
