-- ===== src/FleetActions.antt =====
-- internal/site/src/components/update-agents-button.tsx: the actions on all systems at once, their
-- confirmation, and the message about the results.
pub mod Results
pub mod Running
mod Tests
use Prim.Native.Char.{code}
use Prim.Native.String
use bezel_custom.Prelude.{
  ℕ, ◌+◌, String, Bool, true, false, Option, none, some, List, [], ◌∷◌, str_eq, ◌==◌, ◌&&◌, ◌||◌,
  if◌then◌else◌, length,
}

pub data FleetAction : Type 0 where
  agents updates security : FleetAction

-- The URL of an action and whether its body has securityOnly.
pub url : FleetAction → String
url agents = "/api/beszel-ext/agents/update-all"
url updates = "/api/beszel-ext/updates/apply-all"
url security = "/api/beszel-ext/updates/apply-all"

pub security_only : FleetAction → Bool
security_only security = true
security_only _ = false

-- `startsWith`
abbrev pub starts_with : String → String → Bool
starts_with s String.[] = true
starts_with String.[] (String.◌∷◌ d t) = false
starts_with (String.◌∷◌ c s) (String.◌∷◌ d t) = (code c == code d) && starts_with s t

-- `slice(7)`
abbrev pub drop_one : String → String
drop_one String.[] = ""
drop_one (String.◌∷◌ c s) = s

pub slice_7 : String → String
slice_7 r = drop_one (drop_one (drop_one (drop_one (drop_one (drop_one (drop_one r))))))

abbrev pub is_acted : String → Bool
is_acted r = starts_with r "updated" || starts_with r "running"

abbrev pub is_skipped : String → Bool
is_skipped r = str_eq r "up to date" || str_eq r "no updates"

abbrev pub is_failed : String → Bool
is_failed r = starts_with r "error"

-- A system's name and its result.
abbrev pub Entry : Type 0
Entry = String × String

pub acted : List Entry → List String
acted [] = []
acted ((n, r) ∷ es) = let rest = acted es in if is_acted r then n ∷ rest else rest

pub skipped : List Entry → ℕ
skipped [] = 0
skipped ((n, r) ∷ es) = let rest = skipped es in if is_skipped r then rest + 1 else rest

-- The name and the reason of each failure.
pub failed : List Entry → List Entry
unfolding slice_7
failed [] = []
failed ((n, r) ∷ es) = let rest = failed es in if is_failed r then (n, slice_7 r) ∷ rest else rest

-- The message about an action: the parts of its text, or that it failed.
pub data Message : Type 0 where
  started : FleetAction → List String → ℕ → List Entry → Message
  action_failed : Message

unfoldable pub message : FleetAction → Option (List Entry) → Message
unfolding acted skipped failed
message action none = action_failed
message action (some es) = started action (acted es) (skipped es) (failed es)

-- The action to confirm, whether one runs, the actions that were sent and not answered, and the
-- messages shown, the last one first.
pub record State : Type 0 where
  pub confirm : Option FleetAction
  pub running : Bool
  pub sent : List FleetAction
  pub toasts : List Message

-- An item of the menu is chosen, the dialog is closed or confirmed, and the first request that is
-- under way is answered, with none where it fails.
pub data Event : Type 0 where
  chooses : FleetAction → Event
  cancels continues : Event
  answers : Option (List Entry) → Event

abbrev pub run : Option FleetAction → State → State
run none s = s
run (some action) s = record s { running = true; sent = action ∷ s.sent; confirm = none }

abbrev pub answered : List FleetAction → Option (List Entry) → State → State
answered [] results s = s
answered (action ∷ rest) results s = record s {
  running = false;
  sent = rest;
  toasts = message action results ∷ s.toasts;
}

-- The button of the menu is disabled while an action runs. Confirming closes the dialog.
unfoldable pub handle : Event → State → State
unfolding message
handle (chooses action) s = if s.running then s else record s { confirm = some action }
handle cancels s = record s { confirm = none }
handle continues s = run s.confirm s
handle (answers results) s = answered s.sent results s

pub handle_all : List Event → State → State
unfolding handle
handle_all [] s = s
handle_all (e ∷ es) s = handle_all es (handle e s)
