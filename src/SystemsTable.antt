-- ===== src/SystemsTable.antt =====
-- internal/site/src/components/systems-table: the columns of the table of all systems and the menu of
-- a system. Loads are in hundredths, which is how exact the agent sends them; percentages are whole.
pub mod StatusFilter
pub mod NameFilter
pub mod Indicators
pub mod Menu
mod Tests
use bezel_custom.Prelude.{
  ℕ, ◌+◌, ◌*◌, max, String, Bool, true, false, not, Option, none, some, List, [], ◌∷◌, ◌++◌, map,
  str_eq, ltb, leb, ◌==◌, ◌||◌, ◌&&◌, if◌then◌else◌, given,
}
use bezel_custom.Systems.{SystemStatus, up, down, pending, paused}
use bezel_custom.Utils.Meter.{MeterState, good, warn, crit, get_meter_state}
use bezel_custom.Utils.Versions.{SemVer}

pub data BatteryState : Type 0 where
  unknown empty full charging discharging resting : BatteryState

-- The fields of a system's record and of its info that the columns read.
pub record Row : Type 0 where
  pub id : String
  pub name : String
  pub host : String
  pub status : SystemStatus
  pub version : SemVer
  pub threads : Option ℕ
  pub la : Option (ℕ × ℕ × ℕ)
  pub l1 : Option ℕ
  pub l5 : Option ℕ
  pub l15 : Option ℕ
  pub dp : ℕ
  pub efs : List (String × ℕ)
  pub bat : Option (ℕ × Option BatteryState)
  pub sv : Option (ℕ × ℕ)
  pub pu : Option ℕ
  pub pus : Option ℕ
  pub rb : Option Bool

-- The colors of STATUS_COLORS, by their class.
pub data Color : Type 0 where
  green red primary yellow : Color

pub status_color : SystemStatus → Color
status_color up = green
status_color down = red
status_color paused = primary
status_color pending = yellow

pub is_up : SystemStatus → Bool
is_up up = true
is_up _ = false

pub is_paused : SystemStatus → Bool
is_paused paused = true
is_paused _ = false

pub state_color : MeterState → Color
state_color good = green
state_color warn = yellow
state_color crit = red

-- meterClass and getIndicatorColor, with the two thresholds of the settings
pub meter_color : Option ℕ → Option ℕ → SystemStatus → ℕ → Color
unfolding is_up state_color
meter_color color_warn color_crit status val =
    if not (is_up status) then primary else state_color (get_meter_state color_warn color_crit val)

-- `x || undefined`, and `x ?? 0`
pub or_undefined : ℕ → Option ℕ
or_undefined x = if x == 0 then none else some x

abbrev pub or_zero : Option ℕ → ℕ
or_zero x = given x 0

abbrev pub sum_of : ℕ × ℕ × ℕ → ℕ
sum_of (a, b, c) = a + b + c

-- the value of the column of loads
pub load_value : Row → Option ℕ
unfolding or_undefined
load_value row =
    let sum : ℕ = elim row.la [ none ↦ 0 | some la ↦ sum_of la ] in
    if sum == 0 then or_undefined (or_zero row.l1 + or_zero row.l5 + or_zero row.l15) else some sum

pub legacy_loads : Row → ℕ × ℕ × ℕ
legacy_loads row = (or_zero row.l1, or_zero row.l5, or_zero row.l15)

pub load_averages : Row → ℕ × ℕ × ℕ
unfolding legacy_loads
load_averages row = elim row.la [
  | none ↦ legacy_loads row
  | some la ↦ if row.version.minor == 12 && ltb row.version.patch 1 then legacy_loads row else la
]

abbrev pub max_of : ℕ × ℕ × ℕ → ℕ
max_of (a, b, c) = max a (max b c)

-- getMeterState of a load for each thread in percent; without load and threads it is NaN.
pub load_state : Option ℕ → Option ℕ → ℕ → ℕ → MeterState
load_state color_warn color_crit load threads =
    if load == 0 && threads == 0
    then good
    else if leb (given color_crit 90 * threads) load
    then crit
    else if leb (given color_warn 65 * threads) load
    then warn
    else good

-- The cell of loads: nothing, or the color of its dot and the loads.
pub load_cell : Option ℕ → Option ℕ → Row → Option (Color × (ℕ × ℕ × ℕ))
unfolding load_averages load_state state_color is_up is_paused
load_cell color_warn color_crit row =
    let loads : ℕ × ℕ × ℕ = load_averages row in
    if max_of loads == 0 && (is_paused row.status || ltb row.version.minor 12)
    then none
    else some (
      (if is_up row.status
          then state_color (load_state color_warn color_crit (max_of loads) (given row.threads 1))
          else primary),
      loads,
    )

pub data BatteryIcon : Type 0 where
  plug low medium high full_icon : BatteryIcon

pub data IconColor : Type 0 where
  muted red_icon yellow_icon : IconColor

pub is_charging : Option BatteryState → Bool
is_charging (some charging) = true
is_charging _ = false

pub battery_icon : ℕ → Option BatteryState → BatteryIcon × IconColor
unfolding is_charging
battery_icon pct state =
    if is_charging state
    then (plug, muted)
    else if ltb pct 25
    then (low, if ltb pct 11 then red_icon else yellow_icon)
    else if ltb pct 75
    then (medium, muted)
    else if ltb pct 95
    then (high, muted)
    else (full_icon, muted)

pub battery_cell : Row → Option (BatteryIcon × IconColor)
unfolding battery_icon
battery_cell row = elim row.bat [
  | none ↦ none
  | some battery ↦ some (battery_icon battery.0 battery.1)
]

abbrev pub services_of : Row → ℕ × ℕ
services_of row = given row.sv (0, 0)

-- The cell of services: the color of its dot and the counts.
pub services_cell : Row → Option (Color × (ℕ × ℕ))
unfolding is_up
services_cell row =
    let counts : ℕ × ℕ = services_of row in
    if not (is_up row.status) || counts.0 == 0
    then none
    else some (if ltb 0 counts.1 then red else green, counts)

-- The cell of updates: a dot with its count if there are any, and whether a reboot is shown.
pub updates_cell : Row → Option (Option (Color × ℕ) × Bool)
unfolding is_up
updates_cell row =
    let count : ℕ = or_zero row.pu in
    let reboot : Bool = given row.rb false in
    if not (is_up row.status) || count == 0 && not reboot
    then none
    else some (
      (if ltb 0 count then some (if ltb 0 (or_zero row.pus) then red else yellow, count) else none),
      reboot,
    )

pub data TimeUnit : Type 0 where
  minute hour day : TimeUnit

-- the unit that an uptime in seconds is shown in
pub uptime_unit : ℕ → Option TimeUnit
uptime_unit seconds =
    if seconds == 0
    then none
    else some (if ltb seconds 3600 then minute else if ltb seconds 360_000 then hour else day)

-- the color of the version of an agent, by that of the hub
pub agent_color : String → String → SystemStatus → Color
unfolding is_up
agent_color hub version status =
    if not (is_up status) then red else if str_eq version hub then green else yellow
