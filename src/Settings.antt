-- ===== src/Settings.antt =====
-- The user's settings and links: internal/site/src/lib/api.ts and the stores of lib/stores.ts that it
-- writes, with saveSettings of components/routes/settings/layout.tsx. The server's row is part of the
-- state, and each request has a Bool that tells whether it succeeds.
pub mod Migration
pub mod Unique
pub mod Saving
pub mod Turns
mod Tests
use bezel_custom.Prelude.{
  String, Bool, true, false, not, Option, none, some, List, [], ◌∷◌, ◌++◌, str_eq, ◌&&◌,
  if◌then◌else◌, given, keep,
}
use bezel_custom.QuickLinks.{QuickLink}

pub record ExternalLink : Type 0 where
  pub id : String
  pub label : String
  pub url : String
  pub icon : String
  pub category : Option String

-- The fields of UserSettings that the code reads or that a form saves.
pub record UserSettings : Type 0 where
  pub chart_time : String
  pub emails : List String
  pub webhooks : List String
  pub quick_links : Option (List QuickLink)
  pub external_links : Option (List ExternalLink)

-- `Partial<UserSettings>`
pub record Changes : Type 0 where
  pub chart_time : Option String
  pub emails : Option (List String)
  pub webhooks : Option (List String)

-- The entry "besz-quick-links" of the local storage: no text or an empty one, a text that JSON.parse
-- or the code after it throws on, or the text of a list; a text of another value has no length and
-- does what the text of the empty list does.
pub data Local : Type 0 where
  absent broken : Local
  holds : List QuickLink → Local

-- The stores, the local storage and the row of `user_settings` that the server has for the user.
pub record World : Type 0 where
  pub user_settings : UserSettings
  pub chart_time : String
  pub quick_links : List QuickLink
  pub external_links : List ExternalLink
  pub local : Local
  pub row : Option UserSettings

-- `?? []` and `...`
abbrev pub or_none {ℓ} : {A : Type ℓ} → Option (List A) → List A
or_none none = []
or_none (some xs) = xs

-- `$userSettings.set`, with the listener that follows the key `chartTime`
pub set_user_settings : UserSettings → World → World
set_user_settings new w = record w {
  user_settings = new;
  chart_time =
      if str_eq w.user_settings.chart_time new.chart_time then w.chart_time else new.chart_time;
}

-- `getFirstListItem`, which throws if there is no row
abbrev pub fetch : Bool → World → Option UserSettings
fetch ok w = if ok then w.row else none

pub has_id : String → List QuickLink → Bool
has_id id [] = false
has_id id (l ∷ ls) = let rest = has_id id ls in if str_eq l.id id then true else rest

-- `localLinks.filter((l) => !existingIds.has(l.id))`
pub new_links : List QuickLink → List QuickLink → List QuickLink
new_links server local = keep (λ l. not (has_id l.id server)) local

-- The links are set and, if the request to save them succeeds, saved; if it throws, the links of the
-- server are set again.
pub merge_links : Bool → UserSettings → List QuickLink → List QuickLink → World → World
merge_links saved s server [] w = record w { quick_links = server }
merge_links saved s server (l ∷ ls) w =
    if saved
    then record w {
      quick_links = server ++ l ∷ ls;
      row = some (record s { quick_links = some (server ++ l ∷ ls) });
    }
    else record w { quick_links = server }

pub migrate : Bool → UserSettings → List QuickLink → Local → World → World
unfolding merge_links
migrate saved s server absent w = record w { quick_links = server }
migrate saved s server broken w = record w { quick_links = server; local = absent }
migrate saved s server (holds ls) w = record (merge_links saved s server (new_links server ls) w) {
  local = absent;
}

pub load : Bool → UserSettings → World → World
unfolding migrate set_user_settings
load saved s w =
    migrate saved s (or_none s.quick_links) w.local
      (record (set_user_settings s w) { external_links = or_none s.external_links })

-- The server refuses a second row of a user, and fills in the settings of a new one.
pub create_row : UserSettings → Bool → Option UserSettings → World → World
unfolding set_user_settings
create_row initial ok none w =
    if ok
    then record (set_user_settings initial (record w { row = some initial })) {
      quick_links = [];
      external_links = [];
    }
    else w
create_row initial ok (some s) w = w

pub update_user_settings : UserSettings → Bool → Bool → Bool → World → World
unfolding load create_row
update_user_settings initial fetched saved created w = elim (fetch fetched w) [
  | none ↦ create_row initial created w.row w
  | some s ↦ load saved s w
]

-- The second request of each function that saves, with the settings that the first one fetched.
pub write_quick_links : List QuickLink → UserSettings → World → World
write_quick_links links s w = record w { row = some (record s { quick_links = some links }) }

pub write_external_links : List ExternalLink → UserSettings → World → World
write_external_links links s w = record w { row = some (record s { external_links = some links }) }

-- What a save of links does before its first request, and what it does when that is answered.
pub begin_quick_links : List QuickLink → World → World
begin_quick_links links w = record w { quick_links = links }

pub end_quick_links : Bool → List QuickLink → Option UserSettings → World → World
unfolding write_quick_links
end_quick_links saved links none w = w
end_quick_links saved links (some s) w = if saved then write_quick_links links s w else w

pub save_quick_links : Bool → Bool → List QuickLink → World → World
unfolding begin_quick_links end_quick_links
save_quick_links fetched saved links w =
    let shown : World = begin_quick_links links w in
    end_quick_links saved links (fetch fetched shown) shown

pub begin_external_links : List ExternalLink → World → World
begin_external_links links w = record w { external_links = links }

pub end_external_links : Bool → List ExternalLink → Option UserSettings → World → World
unfolding write_external_links
end_external_links saved links none w = w
end_external_links saved links (some s) w = if saved then write_external_links links s w else w

pub save_external_links : Bool → Bool → List ExternalLink → World → World
unfolding begin_external_links end_external_links
save_external_links fetched saved links w =
    let shown : World = begin_external_links links w in
    end_external_links saved links (fetch fetched shown) shown

abbrev pub with_changes : Changes → UserSettings → UserSettings
with_changes c s = record s {
  chart_time = given c.chart_time s.chart_time;
  emails = given c.emails s.emails;
  webhooks = given c.webhooks s.webhooks;
}

-- saveSettings, with whether it reports success
pub save_settings : Bool → Bool → Changes → World → World × Bool
unfolding set_user_settings
save_settings fetched saved c w = elim (fetch fetched w) [
  | none ↦ (w, false)
  | some s ↦
      if saved
      then (set_user_settings (with_changes c s) (record w { row = some (with_changes c s) }), true)
      else (w, false)
]
