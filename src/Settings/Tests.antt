-- ===== src/Settings/Tests.antt =====
-- Settings at concrete states.
use bezel_custom.Prelude.{◌≡◌, refl, String, true, false, Option, none, some, List, [], ◌∷◌, ◌++◌}
use bezel_custom.QuickLinks.{QuickLink}
use bezel_custom.Settings.{
  UserSettings, ExternalLink, World, holds, absent, Changes, or_none, new_links, has_id,
  update_user_settings, begin_quick_links, begin_external_links,
}
use bezel_custom.Settings.Migration.{Picks, ids, links_of, update_user_settings-migrates}
use bezel_custom.Settings.Unique.{IsUnique}
use bezel_custom.Settings.Turns.{
  Turn, Session, quick_turn, external_turn, take_turns, uncalled_at, saves_at_once_lose,
}

abbrev link : String → QuickLink
link id = record { id = id; name = id; local_url = ""; domain_url = ""; category = none }

abbrev docs : ExternalLink
docs = record {
  id = "docs";
  label = "Docs";
  url = "https://docs.example";
  icon = "book";
  category = none;
}

abbrev saved : UserSettings
saved = record {
  chart_time = "12h";
  emails = "admin@example.org" ∷ [];
  webhooks = [];
  quick_links = some (link "nas" ∷ []);
  external_links = none;
}

abbrev fresh : UserSettings
fresh = record {
  chart_time = "1h";
  emails = [];
  webhooks = [];
  quick_links = none;
  external_links = none;
}

abbrev before : World
before = record {
  user_settings = fresh;
  chart_time = "1h";
  quick_links = [];
  external_links = [];
  local = holds (link "tv" ∷ link "nas" ∷ []);
  row = some saved;
}

abbrev changes : Changes
changes = record { chart_time = some "24h"; emails = none; webhooks = none }

moves_the_new_one :
    (update_user_settings fresh true true false before).quick_links ≡ link "nas" ∷ link "tv" ∷ []
unfolding update_user_settings new_links has_id
moves_the_new_one = refl

follows_chart_time : (update_user_settings fresh true true false before).chart_time ≡ "12h"
unfolding update_user_settings new_links has_id
follows_chart_time = refl

update_user_settings-migrates_example :
    let after = update_user_settings fresh true true false before in
    (new : List QuickLink) × (Picks (ids (or_none saved.quick_links)) (links_of before.local) new
      × ((after.quick_links ≡ or_none saved.quick_links ++ new)
          × ((after.local ≡ absent)
              × ((r : Option (List QuickLink)) × ((after.row
                      ≡ some (record saved { quick_links = r }))
                    × (or_none r ≡ or_none saved.quick_links ++ new))))))
update_user_settings-migrates_example = update_user_settings-migrates fresh saved false before refl

local-IsUnique : IsUnique (link "tv" ∷ link "nas" ∷ [])
unfolding has_id
local-IsUnique = (refl, (refl, tt))

server-IsUnique : IsUnique (link "nas" ∷ [])
unfolding has_id
server-IsUnique = (refl, tt)

-- The external links are called first, the quick links fetch first.
abbrev at_once : List Turn
at_once = external_turn ∷ quick_turn ∷ quick_turn ∷ external_turn ∷ []

abbrev both_asked : Session
both_asked =
    take_turns (link "tv" ∷ []) (docs ∷ []) at_once
      (uncalled_at (link "tv" ∷ []) (docs ∷ []) before)

saves_at_once_lose_example :
    let after =
      (take_turns
        (link "tv" ∷ [])
        (docs ∷ [])
        (quick_turn ∷ external_turn ∷ [])
        both_asked).world in
    (after.quick_links ≡ link "tv" ∷ [])
    × ((after.external_links ≡ docs ∷ [])
        × ((after.row ≡ some (record saved { external_links = some (docs ∷ []) }))
            × ((take_turns
                  (link "tv" ∷ [])
                  (docs ∷ [])
                  (external_turn ∷ quick_turn ∷ [])
                  both_asked).world.row
                ≡ some (record saved { quick_links = some (link "tv" ∷ []) }))))
unfolding take_turns begin_quick_links begin_external_links
saves_at_once_lose_example =
    saves_at_once_lose (link "tv" ∷ []) (docs ∷ []) saved before at_once (some saved) (some saved)
      refl refl refl
