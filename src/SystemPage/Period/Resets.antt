-- ===== src/SystemPage/Period/Resets.antt =====
-- When the page of one system keeps its chart time and when it resets it.
use bezel_custom.Prelude.{
  ◌≡◌, ◌⊎◌, inl, inr, refl, sym, String, false, Option, none, some, str_eq, eq_iff, Bool-cases,
}
use bezel_custom.SystemPage.Period.{
  ShownSystem, allows_realtime, enter_realtime, enter, clean_up, realtime_effect, enter_keeps, Page,
  set_chart_time, leave, open_id, links, presses, handle,
}

-- The chart time that the realtime effect leaves.
entered :
    (s : Option ShownSystem) (p : Page)
    → ((enter (enter_realtime s p.chart_time) p).chart_time ≡ p.chart_time)
      ⊎ ((p.chart_time ≡ "1m") × ((enter (enter_realtime s p.chart_time) p).chart_time ≡ "1h"))
unfolding enter clean_up enter_realtime
entered none p = inl refl
entered (some s) p = elim (Bool-cases (str_eq p.chart_time "1m")) [
  | inr other ↦ rw other (inl refl)
  | inl minute ↦ elim (Bool-cases (allows_realtime s)) [
    | inl allowed ↦ rw (minute, allowed) (inl refl)
    | inr refused ↦ rw (minute, refused) (inr ((eq_iff p.chart_time "1m").0 minute, refl))
  ]
]

set_chart_time_lem :
    (t : String) (p : Page)
    → ((set_chart_time t p).persists ≡ p.persists)
      × (((set_chart_time t p).chart_time ≡ t)
          ⊎ ((t ≡ "1m") × ((set_chart_time t p).chart_time ≡ "1h")))
unfolding set_chart_time realtime_effect
set_chart_time_lem t p = elim (Bool-cases (str_eq t p.chart_time)) [
  | inl same ↦ rw same (refl, inl (sym ((eq_iff t p.chart_time).0 same)))
  | inr other ↦ rw other (
    (enter_keeps (enter_realtime p.system t) (record p { chart_time = t })).1,
    entered p.system (record p { chart_time = t }),
  )
]

-- On the way to another system, an arrow key keeps the chart time and the subscription. A link, if
-- no key was pressed before, sets the chart time of the settings, or an hour where that is one
-- minute. After both, the flag that keeps the chart time once is off.
pub handle-navigates :
    (setting id : String) (p : Page)
    → str_eq id p.id ≡ false
    → p.persists ≡ false
    → ((handle (presses setting id) p).chart_time ≡ p.chart_time)
      × ((handle (presses setting id) p).asks ≡ p.asks)
      × ((handle (presses setting id) p).persists ≡ false)
      × (((handle (links setting id) p).chart_time ≡ setting)
          ⊎ ((setting ≡ "1m") × ((handle (links setting id) p).chart_time ≡ "1h")))
      × ((handle (links setting id) p).persists ≡ false)
unfolding handle open_id leave
handle-navigates setting id p other fresh =
    let (flag, time) = set_chart_time_lem setting (record p { persists = false }) in
    rw (other, fresh) (refl, refl, refl, time, flag)
