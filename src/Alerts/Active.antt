-- ===== src/Alerts/Active.antt =====
-- internal/site/src/components/active-alerts.tsx: the alerts that are triggered, and when the page
-- draws them anew.
use Prim.Native.String
use bezel_custom.Prelude.{
  ℕ, ◌≡◌, refl, ap, ap₂, String, Bool, true, false, Option, none, some, List, [], ◌∷◌, ◌++◌, map,
  str_eq, eq_refl, ◌&&◌, if◌then◌else◌, keep,
}
use bezel_custom.Dict.{Dict, get}
use bezel_custom.Alerts.{AlertRecord}
use bezel_custom.Alerts.Sheet.{AlertInfo, alert_info}

abbrev is_some : Option AlertInfo → Bool
is_some none = false
is_some (some i) = true

-- `alert.triggered && alert.name in alertInfo`
pub is_active : AlertRecord → Bool
unfolding get
is_active a = a.triggered && is_some (get alert_info a.name)

abbrev records : Dict AlertRecord → List AlertRecord
records alerts = map (λ entry. entry.1) alerts

-- The loops over the alerts of each system.
unfoldable pub active_alerts : List (Dict AlertRecord) → List AlertRecord
unfolding is_active
active_alerts [] = []
active_alerts (m ∷ ms) = keep is_active (records m) ++ active_alerts ms

-- What is drawn, and the key that it was drawn for: the page is drawn anew when the key changes.
pub record Drawn : Type 0 where
  pub key : String
  pub alerts : List AlertRecord

-- The text of a number.
module _ (show : ℕ → String) where
  pub alert_key : AlertRecord → String
  alert_key a = String.◌++◌ a.system (String.◌++◌ (show a.value) (show a.min))

  -- `alertsKey.join("")`
  pub alerts_key : List AlertRecord → String
  unfolding alert_key
  alerts_key [] = ""
  alerts_key (a ∷ rest) = String.◌++◌ (alert_key a) (alerts_key rest)

  pub draw : List (Dict AlertRecord) → Drawn
  unfolding active_alerts alerts_key
  draw alerts = record { key = alerts_key (active_alerts alerts); alerts = active_alerts alerts }

  unfoldable pub redraw : List (Dict AlertRecord) → Drawn → Drawn
  unfolding draw
  redraw alerts drawn = if str_eq (draw alerts).key drawn.key then drawn else draw alerts

  -- Two lists that have, place by place, the systems, the values and the minutes of each other.
  abbrev pub Alike : List AlertRecord → List AlertRecord → Type 0
  Alike [] [] = Unit
  Alike [] (b ∷ bs) = ⊥
  Alike (a ∷ rest) [] = ⊥
  Alike (a ∷ rest) (b ∷ bs) =
      ((a.system ≡ b.system) × (a.value ≡ b.value) × (a.min ≡ b.min)) × Alike rest bs

  alerts_key-Alike : (rest bs : List AlertRecord) → Alike rest bs → alerts_key rest ≡ alerts_key bs
  unfolding alerts_key
  alerts_key-Alike [] [] h = refl
  alerts_key-Alike [] (b ∷ bs) h = elim h [ ]
  alerts_key-Alike (a ∷ rest) [] h = elim h [ ]
  alerts_key-Alike (a ∷ rest) (b ∷ bs) (here, more) =
      ap₂ (λ x y. String.◌++◌ x y)
        (ap₂ (λ x y. String.◌++◌ x y) here.0
          (ap₂ (λ x y. String.◌++◌ x y) (ap show here.1) (ap show here.2)))
        (alerts_key-Alike rest bs more)

  -- If the triggered alerts have, place by place, the systems, the values and the minutes of those
  -- drawn before, the page keeps what it has drawn, whatever their names are.
  pub redraw-stale :
      (before now : List (Dict AlertRecord))
      → Alike (active_alerts now) (active_alerts before)
      → (redraw now (draw before)).alerts ≡ active_alerts before
  unfolding redraw
  redraw-stale before now h =
      rw
        (
          alerts_key-Alike (active_alerts now) (active_alerts before) h,
          eq_refl (alerts_key (active_alerts before)),
        )
        refl
