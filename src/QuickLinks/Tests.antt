-- ===== src/QuickLinks/Tests.antt =====
-- Quick links at concrete inputs.
use mathlib.Core.List.{Perm}
use bezel_custom.Prelude.{
  ℕ, get_elem?, ◌≡◌, ◌≢◌, refl, String, some, List, [], ◌∷◌, map, eq_iff, arith,
}
use bezel_custom.QuickLinks.{QuickLink, Draft, left, right, category_of, move_link, trim}
use bezel_custom.QuickLinks.Move.{in_category, move_link-perm}
use bezel_custom.QuickLinks.Order.Swap.{swapped}
use bezel_custom.QuickLinks.Order.{move_link-swapped}

abbrev link : String → String → QuickLink
link id category = record {
  id = id;
  name = id;
  local_url = "http://10.0.0.1";
  domain_url = "";
  category = some category;
}

abbrev links : List QuickLink
links = link "nas" "Home" ∷ link "wiki" "Docs" ∷ link "tv" "Home" ∷ link "mail" "" ∷ []

abbrev draft : Draft
draft = record {
  name = " cam ";
  local_url = "";
  domain_url = "https://cam.example";
  category = "Home";
}

abbrev ids : List QuickLink → List String
ids = map (λ l. l.id)

moved_left : ids (move_link "tv" left links) ≡ "tv" ∷ "nas" ∷ "wiki" ∷ "mail" ∷ []
unfolding move_link category_of
moved_left = refl

moved_right : ids (move_link "nas" right links) ≡ "wiki" ∷ "tv" ∷ "nas" ∷ "mail" ∷ []
unfolding move_link category_of
moved_right = refl

alone_stays : ids (move_link "wiki" right links) ≡ ids links
unfolding move_link category_of
alone_stays = refl

trimmed : trim draft.name ≡ "cam"
unfolding trim
trimmed = refl

home_ne_docs : category_of (link "tv" "Home") ≢ "Docs"
unfolding category_of
home_ne_docs e = ground (arith, eq_iff "Home" "Docs")

move_link-perm_example : Perm (move_link "tv" left links) links
move_link-perm_example = move_link-perm "tv" left links

move_link-swapped_example :
    (p : ℕ) × (get_elem? (in_category (category_of (link "tv" "Home")) links) p
      ≡ some (link "tv" "Home"))
    × (in_category (category_of (link "tv" "Home")) (move_link "tv" left links)
        ≡ swapped left p (in_category (category_of (link "tv" "Home")) links))
move_link-swapped_example = move_link-swapped "tv" left links (link "tv" "Home") refl
