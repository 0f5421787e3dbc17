-- ===== src/AddSystem.antt =====
-- internal/site/src/components/add-system.tsx: the dialog that adds a system or edits one, with the
-- token that the next system gets and the map of tokens of lib/utils.ts.
pub mod Tokens
mod Tests
use bezel_custom.Prelude.{
  ℕ, zero, suc, String, Bool, true, false, Option, none, some, List, [], ◌∷◌, ◌++◌, str_eq,
  if◌then◌else◌,
}
use bezel_custom.Dict.{Dict, get, put}
use bezel_custom.QuickLinks.{QuickLink}

-- The fields of the form, and those of the quick link.
pub record Draft : Type 0 where
  pub name : String
  pub host : String
  pub port : String
  pub add_to_quick_links : Bool
  pub local_url : String
  pub domain_url : String
  pub category : String

-- A submission under way: the request that creates the system, and the one that stores its token.
-- The token is the one that the form showed.
pub data Stage : Type 0 where
  creating : Draft → String → Stage
  registering : String → Draft → String → Stage

pub data Answer : Type 0 where
  accepted : String → Answer
  refused : Answer

pub data Outcome : Type 0 where
  goes_on : Stage → Outcome
  fails : Outcome
  succeeds : String → Draft → String → Outcome

unfoldable pub resolve : Stage → Answer → Outcome
resolve (creating d token) (accepted id) = goes_on (registering id d token)
resolve (registering id d token) (accepted record_id) = succeeds id d token
resolve (creating d token) refused = fails
resolve (registering id d token) refused = fails

-- What the page keeps, with the store of quick links, and the fingerprints that the hub has stored,
-- the newest first.
pub record State : Type 0 where
  pub next_token : Option String
  pub token : String
  pub is_open : Bool
  pub generated : ℕ
  pub waiting : List Stage
  pub fingerprints : List (String × String)
  pub quick_links : List QuickLink

pub data Event : Type 0 where
  opens : Event
  closes : Event
  submits : Draft → Event
  answers : ℕ → Answer → Event

-- `nextSystemToken ||= generateToken()`: an empty text is falsy.
abbrev pub or_generated : Option String → String → String
or_generated none fresh = fresh
or_generated (some t) fresh = if str_eq t "" then fresh else t

abbrev pub is_missing : Option String → Bool
is_missing none = true
is_missing (some t) = str_eq t ""

unfoldable pub new_link : String → Draft → QuickLink
new_link id d = record {
  id = id;
  name = d.name;
  local_url = d.local_url;
  domain_url = d.domain_url;
  category = some d.category;
}

-- The n-th submission under way, and the others.
unfoldable pub pick : ℕ → List Stage → Option (Stage × List Stage)
pick n [] = none
pick zero (s ∷ ss) = some (s, ss)
pick (suc n) (s ∷ ss) = elim (pick n ss) [ none ↦ none | some found ↦ some (found.0, s ∷ found.1) ]

unfoldable pub settle : Outcome → List Stage → State → State
unfolding new_link
settle (goes_on stage) others s = record s { waiting = stage ∷ others }
settle fails others s = record s { waiting = others }
settle (succeeds id d token) others s = record s {
  waiting = others;
  fingerprints = (id, token) ∷ s.fingerprints;
  quick_links = if d.add_to_quick_links then s.quick_links ++ new_link id d ∷ [] else s.quick_links;
  next_token = none;
}

unfoldable pub answered : Option (Stage × List Stage) → Answer → State → State
unfolding settle resolve
answered none a s = s
answered (some (stage, others)) a s = settle (resolve stage a) others s

-- The tokens that the browser generates, by their number.
module _ (generate : ℕ → String) where
  -- The effect runs when the dialog opens; it depends on the token that it reads, so that it changes
  -- nothing when it runs again.
  unfoldable pub refresh_token : State → State
  refresh_token s = record s {
    next_token = some (or_generated s.next_token (generate s.generated));
    token = or_generated s.next_token (generate s.generated);
    generated = if is_missing s.next_token then suc s.generated else s.generated;
  }

  unfoldable pub submit : Draft → State → State
  submit d s =
      if s.is_open
      then record s { is_open = false; waiting = creating d s.token ∷ s.waiting }
      else s

  unfoldable pub handle : Event → State → State
  unfolding refresh_token submit answered pick
  handle opens s = record (refresh_token s) { is_open = true }
  handle closes s = record s { is_open = false }
  handle (submits d) s = submit d s
  handle (answers n a) s = answered (pick n s.waiting) a s

  unfoldable pub handle_all : List Event → State → State
  unfolding handle
  handle_all [] s = s
  handle_all (e ∷ es) s = handle_all es (handle e s)

-- The dialog of a system that is there: its token from the map, or else the one that the hub answers.
pub data EditToken : Type 0 where
  known : String → EditToken
  asks : String → EditToken

pub edit_token : Dict String → String → EditToken
unfolding get
edit_token tokens id = elim (get tokens id) [ none ↦ asks id | some token ↦ known token ]

pub on_token : String → String → Dict String → Dict String
unfolding put
on_token id token tokens = put tokens id token
