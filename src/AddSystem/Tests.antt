-- ===== src/AddSystem/Tests.antt =====
-- Systems that are added one after the other, and two whose submissions overlap.
use bezel_custom.Prelude.{
  ℕ, zero, suc, ◌≡◌, ◌≢◌, refl, ap, String, true, false, none, List, [], ◌∷◌, arith,
}
use bezel_custom.AddSystem.{
  State, Event, Draft, opens, closes, submits, answers, accepted, refused, handle_all, edit_token,
  on_token, known,
}
use bezel_custom.AddSystem.Tokens.{AreDistinct, handle_all-AreDistinct}

-- Tokens of growing length.
unfoldable generate : ℕ → String
generate zero = "t"
generate (suc n) = String.◌∷◌ "t" (generate n)

abbrev size : String → ℕ
size String.[] = 0
size (String.◌∷◌ c s) = suc (size s)

size-generate : (n : ℕ) → size (generate n) ≡ suc n
unfolding generate
size-generate zero = refl
size-generate (suc n) = ap suc (size-generate n)

generate-full : (n : ℕ) → generate n ≢ ""
generate-full n empty = let sizes = ap size empty in grind (arith, size-generate n)

generate-injective : (i j : ℕ) → generate i ≡ generate j → i ≡ j
generate-injective i j same =
    let sizes = ap size same in grind (arith, size-generate i, size-generate j)

abbrev start : State
start = record {
  next_token = none;
  token = "";
  is_open = false;
  generated = 0;
  waiting = [];
  fingerprints = [];
  quick_links = [];
}

abbrev db : Draft
db = record {
  name = "db";
  host = "10.0.0.2";
  port = "45876";
  add_to_quick_links = true;
  local_url = "http://10.0.0.2";
  domain_url = "";
  category = "";
}

abbrev web : Draft
web = record db { name = "web"; add_to_quick_links = false }

-- The first creation is refused, its token is that of the next system.
abbrev in_turn : List Event
in_turn =
    opens
    ∷ submits db
    ∷ answers 0 refused
    ∷ opens
    ∷ submits db
    ∷ answers 0 (accepted "d")
    ∷ answers 0 (accepted "f")
    ∷ opens
    ∷ closes
    ∷ opens
    ∷ submits web
    ∷ answers 0 (accepted "w")
    ∷ answers 0 (accepted "g")
    ∷ []

stores_in_turn : (handle_all generate in_turn start).fingerprints ≡ ("w", "tt") ∷ ("d", "t") ∷ []
unfolding handle_all generate
stores_in_turn = refl

-- The dialog opens again while the first system is created: both systems get one token.
reopened_shares :
    (handle_all generate
      (opens
        ∷ submits db
        ∷ opens
        ∷ submits web
        ∷ answers 1 (accepted "d")
        ∷ answers 0 (accepted "f")
        ∷ answers 0 (accepted "w")
        ∷ answers 0 (accepted "g")
        ∷ [])
      start).fingerprints
    ≡ ("w", "t") ∷ ("d", "t") ∷ []
unfolding handle_all generate
reopened_shares = refl

-- A token that is refused leaves the system without one, and without its quick link.
leaves_no_token :
    (handle_all generate
      (opens ∷ submits db ∷ answers 0 (accepted "d") ∷ answers 0 refused ∷ [])
      start).quick_links
    ≡ []
unfolding handle_all generate
leaves_no_token = refl

asks_once : edit_token (on_token "d" "t" []) "d" ≡ known "t"
unfolding edit_token on_token
asks_once = refl

handle_all-AreDistinct_example : AreDistinct (handle_all generate in_turn start).fingerprints
unfolding handle_all generate
handle_all-AreDistinct_example =
    handle_all-AreDistinct generate in_turn start generate-full generate-injective refl refl refl
      refl (refl, (refl, (refl, (refl, tt))))
