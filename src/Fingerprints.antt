-- ===== src/Fingerprints.antt =====
-- internal/site/src/components/routes/settings/tokens-fingerprints.tsx: the fingerprints of systems with
-- their tokens, the map of tokens that lib/utils.ts keeps, and the universal token.
pub mod Tokens
mod Tests
use Prim.Native.String
use bezel_custom.Prelude.{
  ℕ, String, Bool, true, false, not, Option, none, some, List, [], ◌∷◌, ◌++◌, map, str_eq,
  if◌then◌else◌, keep,
}
use bezel_custom.Dict.{Dict, get, put}
use bezel_custom.QuietHours.{Action, create, update, delete}

-- `system_name` is `expand.system.name`.
pub record FingerprintRecord : Type 0 where
  pub id : String
  pub system : String
  pub system_name : String
  pub token : String
  pub fingerprint : String

-- whether `a.localeCompare(b) <= 0`
module _ (at_most : String → String → Bool) where
  pub insert : FingerprintRecord → List FingerprintRecord → List FingerprintRecord
  insert f [] = f ∷ []
  insert f (g ∷ gs) =
      let rest = insert f gs in if at_most f.system_name g.system_name then f ∷ g ∷ gs else g ∷ rest

  pub sort_fingerprints : List FingerprintRecord → List FingerprintRecord
  unfolding insert
  sort_fingerprints [] = []
  sort_fingerprints (f ∷ fs) = insert f (sort_fingerprints fs)

  pub loaded : List FingerprintRecord → List FingerprintRecord
  unfolding sort_fingerprints
  loaded prints = sort_fingerprints prints

  pub on_event : Action → FingerprintRecord → List FingerprintRecord → List FingerprintRecord
  unfolding sort_fingerprints
  on_event create r current = sort_fingerprints (current ++ r ∷ [])
  on_event update r current = map (λ f. if str_eq f.id r.id then r else f) current
  on_event delete r current = keep (λ f. not (str_eq f.id r.id)) current

-- the effect that follows each change of the list
pub update_tokens : List FingerprintRecord → Dict String → Dict String
unfolding put
update_tokens [] tokens = tokens
update_tokens (f ∷ fs) tokens = update_tokens fs (put tokens f.system f.token)

-- the request that clears the fingerprint of a record, with a new token if it is to be rotated
pub record Request : Type 0 where
  pub id : String
  pub fingerprint : String
  pub token : String

pub update_fingerprint : FingerprintRecord → Option String → Request
update_fingerprint f rotated = record {
  id = f.id;
  fingerprint = "";
  token = elim rotated [ none ↦ f.token | some token ↦ token ];
}

-- Whether the menu has the item that deletes the fingerprint.
pub can_delete : FingerprintRecord → Bool
can_delete f = not (str_eq f.fingerprint "")

-- The universal token; a request tells what is to be set, which is off or on, or -1 for neither.
pub data Wanted : Type 0 where
  unset off on : Wanted

pub record TokenState : Type 0 where
  pub token : String
  pub is_loading : Bool
  pub checked : Bool
  pub is_permanent : Bool

pub record TokenQuery : Type 0 where
  pub token : String
  pub enable : Wanted
  pub permanent : Wanted

abbrev pub wanted : Bool → Wanted
wanted true = on
wanted false = off

pub open_query : TokenState → TokenQuery
open_query s = record { token = s.token; enable = unset; permanent = unset }

pub switch_query : Bool → TokenState → TokenQuery
switch_query checked s = record {
  token = s.token;
  enable = wanted checked;
  permanent = wanted s.is_permanent;
}

pub kind_query : Bool → TokenState → TokenQuery
kind_query permanent s = record { token = s.token; enable = on; permanent = wanted permanent }

-- what the answer sets; `permanent` may be absent
pub token_answered : String → Bool → Option Bool → TokenState → TokenState
token_answered token active permanent s = record {
  token = token;
  is_loading = false;
  checked = active;
  is_permanent = elim permanent [ none ↦ false | some p ↦ p ];
}
