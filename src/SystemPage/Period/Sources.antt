-- ===== src/SystemPage/Period/Sources.antt =====
-- Which of the two sources of the charts' records the page of one system uses.
use bezel_custom.Prelude.{
  is_there, ◌≡◌, inl, inr, refl, String, true, false, Option, none, some, List, [], ◌∷◌, arith,
  str_eq, eq_iff, if◌then◌else◌, ◌&&◌, not, Bool-cases, ◌∙◌,
}
use bezel_custom.SystemPage.Period.{
  ShownSystem, allows_realtime, enter_realtime, enter, clean_up, realtime_effect, enter_keeps,
  fetches, is_shown, Page, set_chart_time, set_system, leave, open_id, Event, chooses, finds, links,
  presses, answers, handle, handle_all,
}

-- The system whose metrics the charts need at once.
abbrev pub wanted : Option ShownSystem → String → Option String
wanted none chart_time = none
wanted (some system) chart_time = if str_eq chart_time "1m" then some system.id else none

abbrev pub IsCurrent : Page → Type 0
IsCurrent p = p.asks ≡ wanted p.system p.chart_time

enter-wanted :
    (s : Option ShownSystem) (p : Page)
    → (enter (enter_realtime s p.chart_time) p).asks
      ≡ wanted s (enter (enter_realtime s p.chart_time) p).chart_time
unfolding enter clean_up enter_realtime
enter-wanted none p = refl
enter-wanted (some s) p = elim (Bool-cases (str_eq p.chart_time "1m")) [
  | inr other ↦ rw (other, other) refl
  | inl minute ↦ elim (Bool-cases (allows_realtime s)) [
    | inl allowed ↦ rw (minute, allowed, minute) refl
    | inr refused ↦ rw (minute, refused) refl
  ]
]

realtime_effect-IsCurrent : (p : Page) → IsCurrent (realtime_effect p)
unfolding realtime_effect
realtime_effect-IsCurrent p =
    rw (enter_keeps (enter_realtime p.system p.chart_time) p).0 (enter-wanted p.system p)

set_chart_time-IsCurrent : (t : String) (p : Page) → IsCurrent p → IsCurrent (set_chart_time t p)
unfolding set_chart_time
set_chart_time-IsCurrent t p h = elim (Bool-cases (str_eq t p.chart_time)) [
  | inl same ↦ rw same h
  | inr other ↦ rw other (realtime_effect-IsCurrent (record p { chart_time = t }))
]

shown_keeps :
    (s : Option ShownSystem) (system : ShownSystem) (t : String)
    → is_shown system.id s ≡ true
    → wanted s t ≡ wanted (some system) t
shown_keeps none system t h = ground (arith, h)
shown_keeps (some s) system t h = rw ((eq_iff s.id system.id).0 h) refl

set_system-IsCurrent :
    (system : ShownSystem) (p : Page) → IsCurrent p → IsCurrent (set_system system p)
unfolding set_system
set_system-IsCurrent system p h = elim (Bool-cases (is_shown system.id p.system)) [
  | inl same ↦ rw same (h ∙ shown_keeps p.system system p.chart_time same)
  | inr other ↦ rw other (realtime_effect-IsCurrent (record p { system = some system }))
]

leave-IsCurrent : (setting : String) (p : Page) → IsCurrent p → IsCurrent (leave setting p)
unfolding leave
leave-IsCurrent setting p h = elim (Bool-cases p.persists) [
  | inl keeps ↦ rw keeps h
  | inr resets ↦ rw resets (set_chart_time-IsCurrent setting (record p { persists = false }) h)
]

open_id-IsCurrent :
    (setting id : String) (p : Page) → IsCurrent p → IsCurrent (open_id setting id p)
unfolding open_id
open_id-IsCurrent setting id p h = elim (Bool-cases (str_eq id p.id)) [
  | inl same ↦ rw same h
  | inr other ↦ rw other (leave-IsCurrent setting p h)
]

handle-IsCurrent : (e : Event) (p : Page) → IsCurrent p → IsCurrent (handle e p)
unfolding handle
handle-IsCurrent (chooses t) p h = set_chart_time-IsCurrent t p h
handle-IsCurrent (finds system) p h = set_system-IsCurrent system p h
handle-IsCurrent (links setting id) p h = open_id-IsCurrent setting id p h
handle-IsCurrent (presses setting id) p h =
    open_id-IsCurrent setting id (record p { persists = true }) h
handle-IsCurrent answers p h = h

handle_all-IsCurrent : (es : List Event) (p : Page) → IsCurrent p → IsCurrent (handle_all es p)
unfolding handle_all
handle_all-IsCurrent [] p h = h
handle_all-IsCurrent (e ∷ es) p h = handle_all-IsCurrent es (handle e p) (handle-IsCurrent e p h)

fetches_lem :
    (s : Option ShownSystem) (t : String)
    → fetches s t ≡ (is_there s && not (str_eq t "") && not (is_there (wanted s t)))
unfolding fetches
fetches_lem none t = refl
fetches_lem (some s) t = ground (arith)

-- After any events on a page on which no system was found and no run of the realtime effect has
-- subscribed, the current run of the effect has asked for the realtime metrics of the shown system
-- exactly if the chart time is one minute, and the records of that system are fetched exactly if
-- it has not, unless the chart time is empty.
pub handle_all-sources :
    (es : List Event) (p : Page)
    → p.system ≡ none
    → p.asks ≡ none
    → ((handle_all es p).asks ≡ wanted (handle_all es p).system (handle_all es p).chart_time)
      × (fetches (handle_all es p).system (handle_all es p).chart_time ≡ (
          is_there (handle_all es p).system
          && not (str_eq (handle_all es p).chart_time "")
          && not (is_there (handle_all es p).asks)))
handle_all-sources es p unfound idle =
    let current : IsCurrent (handle_all es p) =
      handle_all-IsCurrent es p (rw (unfound, idle) refl) in
    (current, rw current (fetches_lem (handle_all es p).system (handle_all es p).chart_time))
