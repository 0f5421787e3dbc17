-- ===== src/Utils/Meter.antt =====
-- getMeterState of internal/site/src/lib/utils.ts, with the two thresholds of the user's settings.
use bezel_custom.Prelude.{ℕ, ◌≤◌, ◌<◌, ◌≡◌, ◌↔◌, Option, none, some, arith, leb, if◌then◌else◌, min}

pub data MeterState : Type 0 where
  good warn crit : MeterState

abbrev pub default : ℕ → Option ℕ → ℕ
default d none = d
default d (some v) = v

unfoldable pub get_meter_state : Option ℕ → Option ℕ → ℕ → MeterState
get_meter_state color_warn color_crit value =
    if leb (default 90 color_crit) value
    then crit
    else if leb (default 65 color_warn) value
    then warn
    else good

abbrev pub severity : MeterState → ℕ
severity good = 0
severity warn = 1
severity crit = 2

-- A greater value never has a milder state; the state is critical exactly from the critical
-- threshold on, and good exactly under both thresholds, with 65 and 90 for those not set.
pub get_meter_state_lem :
    (color_warn color_crit : Option ℕ) (v w : ℕ)
    → v ≤ w
    → (severity (get_meter_state color_warn color_crit v)
        ≤ severity (get_meter_state color_warn color_crit w))
      × ((get_meter_state color_warn color_crit v ≡ crit) ↔ (default 90 color_crit ≤ v))
      × ((get_meter_state color_warn color_crit v ≡ good)
          ↔ (v < min (default 65 color_warn) (default 90 color_crit)))
unfolding get_meter_state
get_meter_state_lem color_warn color_crit v w h =
    (ground arith, (λ e. ground arith, λ e. ground arith), (λ e. ground arith, λ e. ground arith))
