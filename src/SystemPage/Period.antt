-- ===== src/SystemPage/Period.antt =====
-- The chart time of the page of one system in internal/site/src/components/routes/system.tsx: the
-- effects that reset it, and those that fetch records or subscribe to realtime metrics by it. Realtime
-- follows the listeners of one effect through its runs.
pub mod Sources
pub mod Resets
mod Tests
use bezel_custom.Prelude.{
  is_there, ◌≡◌, ◌⊎◌, sym, inl, inr, refl, String, Bool, true, false, Option, none, some, List, [],
  ◌∷◌, arith, leb, str_eq, eq_iff, eq_refl, if◌then◌else◌, ◌&&◌, not, Bool-cases, ◌∙◌,
}
use bezel_custom.Utils.Versions.{SemVer}

pub record ShownSystem : Type 0 where
  pub id : String
  pub is_up : Bool
  pub version : SemVer

-- What the realtime effect does: nothing, set the chart time to an hour, or subscribe.
pub data Entry : Type 0 where
  stays goes_back : Entry
  subscribes : String → Entry

abbrev pub allows_realtime : ShownSystem → Bool
allows_realtime system = system.is_up && leb 13 system.version.minor

unfoldable pub enter_realtime : Option ShownSystem → String → Entry
enter_realtime none chart_time = stays
enter_realtime (some system) chart_time =
    if str_eq chart_time "1m"
    then (if allows_realtime system then subscribes system.id else goes_back)
    else stays

-- The guard of the effect that fetches the records.
unfoldable pub fetches : Option ShownSystem → String → Bool
fetches none chart_time = false
fetches (some system) chart_time = not (str_eq chart_time "") && not (str_eq chart_time "1m")

-- The id of the route, the system that is shown, none before it is found, the chart time, the flag
-- persistChartTime, the system that the current run of the realtime effect subscribed to and whether
-- that was answered, and the systems whose subscriptions were left before they were answered: those
-- come on and are not ended.
pub record Page : Type 0 where
  pub id : String
  pub system : Option ShownSystem
  pub chart_time : String
  pub persists : Bool
  pub asks : Option String
  pub is_answered : Bool
  pub left_on : List String

-- `unsub?.()`: until the answer it is a function that does nothing.
unfoldable pub left : Option String → Bool → List String → List String
left none answered ids = ids
left (some id) answered ids = if answered then ids else id ∷ ids

unfoldable pub clean_up : Page → Page
unfolding left
clean_up p = record p {
  asks = none;
  is_answered = false;
  left_on = left p.asks p.is_answered p.left_on;
}

unfoldable pub enter : Entry → Page → Page
unfolding clean_up
enter stays p = clean_up p
enter goes_back p = record (clean_up p) { chart_time = "1h" }
enter (subscribes id) p = record (clean_up p) { asks = some id }

-- The end of the realtime effect and its next run.
unfoldable pub realtime_effect : Page → Page
unfolding enter
realtime_effect p = enter (enter_realtime p.system p.chart_time) p

unfoldable pub set_chart_time : String → Page → Page
unfolding realtime_effect
set_chart_time t p =
    if str_eq t p.chart_time then p else realtime_effect (record p { chart_time = t })

abbrev pub is_shown : String → Option ShownSystem → Bool
is_shown id none = false
is_shown id (some system) = str_eq system.id id

-- `setSystem(sys)`: the realtime effect runs for another id only.
unfoldable pub set_system : ShownSystem → Page → Page
unfolding realtime_effect
set_system system p =
    if is_shown system.id p.system
    then record p { system = some system }
    else realtime_effect (record p { system = some system })

-- The effect that ends with an id, where the chart time of the settings is given.
unfoldable pub leave : String → Page → Page
unfolding set_chart_time
leave setting p =
    if p.persists
    then record p { persists = false }
    else set_chart_time setting (record p { persists = false })

unfoldable pub open_id : String → String → Page → Page
unfolding leave
open_id setting id p = if str_eq id p.id then p else record (leave setting p) { id = id }

-- A chart time is chosen, the record of the system arrives, a link leads to a system or an arrow
-- key does, or the answer to the subscription of the current run arrives. A link or a key has the chart
-- time of the settings.
pub data Event : Type 0 where
  chooses : String → Event
  finds : ShownSystem → Event
  links presses : String → String → Event
  answers : Event

unfoldable pub handle : Event → Page → Page
unfolding open_id set_system
handle (chooses t) p = set_chart_time t p
handle (finds system) p = set_system system p
handle (links setting id) p = open_id setting id p
handle (presses setting id) p = open_id setting id (record p { persists = true })
handle answers p = record p { is_answered = is_there p.asks }

pub handle_all : List Event → Page → Page
unfolding handle
handle_all [] p = p
handle_all (e ∷ es) p = handle_all es (handle e p)

-- The effect changes the chart time and the subscription only.
pub enter_keeps :
    (e : Entry) (p : Page) → ((enter e p).system ≡ p.system) × ((enter e p).persists ≡ p.persists)
unfolding enter clean_up
enter_keeps stays p = (refl, refl)
enter_keeps goes_back p = (refl, refl)
enter_keeps (subscribes id) p = (refl, refl)
