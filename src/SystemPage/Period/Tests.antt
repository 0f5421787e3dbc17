-- ===== src/SystemPage/Period/Tests.antt =====
-- The chart time and the sources of the records at concrete events.
use bezel_custom.Prelude.{
  is_there, ◌≡◌, refl, true, false, none, some, List, [], ◌∷◌, str_eq, ◌&&◌, not,
}
use bezel_custom.Utils.Versions.{SemVer}
use bezel_custom.SystemPage.Period.{
  ShownSystem, Page, Event, chooses, finds, presses, handle, handle_all, fetches, enter_realtime,
  enter, clean_up, left, answers, realtime_effect, set_chart_time, set_system, leave, open_id,
}
use bezel_custom.SystemPage.Period.Sources.{wanted, handle_all-sources}

abbrev recent : SemVer
recent = record { major = 0; minor = 18; patch = 2 }

abbrev nas : ShownSystem
nas = record { id = "nas"; is_up = true; version = recent }

abbrev vps : ShownSystem
vps = record { id = "vps"; is_up = false; version = recent }

abbrev fresh_page : Page
fresh_page = record {
  id = "nas";
  system = none;
  chart_time = "1h";
  persists = false;
  asks = none;
  is_answered = false;
  left_on = [];
}

-- The system is down, so that one minute is not kept on the way to it.
abbrev events : List Event
events = finds nas ∷ chooses "1m" ∷ presses "12h" "vps" ∷ finds vps ∷ []

handle_all-sources_example :
    ((handle_all events fresh_page).asks
      ≡ wanted (handle_all events fresh_page).system (handle_all events fresh_page).chart_time)
    × (fetches (handle_all events fresh_page).system (handle_all events fresh_page).chart_time ≡ (
        is_there (handle_all events fresh_page).system
        && not (str_eq (handle_all events fresh_page).chart_time "")
        && not (is_there (handle_all events fresh_page).asks)))
handle_all-sources_example = handle_all-sources events fresh_page refl refl

goes_back_for_vps : (handle_all events fresh_page).chart_time ≡ "1h"
unfolding handle_all handle open_id set_system leave set_chart_time realtime_effect enter clean_up
    enter_realtime
goes_back_for_vps = refl

watches_nas : (handle_all (finds nas ∷ chooses "1m" ∷ []) fresh_page).asks ≡ some "nas"
unfolding handle_all handle open_id set_system leave set_chart_time realtime_effect enter clean_up
    enter_realtime
watches_nas = refl

-- The chart time changes again before the subscription is answered, or after that.
leaves_a_subscription :
    (handle_all (finds nas ∷ chooses "1m" ∷ chooses "1h" ∷ []) fresh_page).left_on ≡ "nas" ∷ []
unfolding handle_all handle set_system set_chart_time realtime_effect enter clean_up left
    enter_realtime
leaves_a_subscription = refl

ends_the_subscription :
    (handle_all (finds nas ∷ chooses "1m" ∷ answers ∷ chooses "1h" ∷ []) fresh_page).left_on ≡ []
unfolding handle_all handle set_system set_chart_time realtime_effect enter clean_up left
    enter_realtime
ends_the_subscription = refl
