-- ===== src/QuickLinks.antt =====
-- internal/site/src/components/quick-links.tsx: the quick links of a user, in one list that the page
-- groups by category.
pub mod Move
pub mod Order
pub mod Edit
mod Tests
use Prim.Native.Char.{code}
use Prim.Native.String
use bezel_custom.Prelude.{
  ℕ, zero, suc, ◌+◌, ◌-◌, String, Bool, true, false, not, Option, none, some, List, [], ◌∷◌, ◌++◌,
  map, str_eq, leb, ◌==◌, ◌||◌, ◌&&◌, if◌then◌else◌, keep, take, drop, length, get_elem?,
}
use bezel_custom.Dict.{Dict, get, put}

pub record QuickLink : Type 0 where
  pub id : String
  pub name : String
  pub local_url : String
  pub domain_url : String
  pub category : Option String

-- `link.category || "Uncategorized"`: an empty text is falsy.
pub category_of : QuickLink → String
category_of l = elim l.category [
  | none ↦ "Uncategorized"
  | some c ↦ if str_eq c "" then "Uncategorized" else c
]

-- the loop that groups links, over a Map from categories to lists
abbrev pub or_empty : Option (List QuickLink) → List QuickLink
or_empty none = []
or_empty (some ls) = ls

pub group_into : Dict (List QuickLink) → List QuickLink → Dict (List QuickLink)
group_into grouped [] = grouped
group_into grouped (l ∷ ls) =
    group_into (put grouped (category_of l) (or_empty (get grouped (category_of l)) ++ l ∷ [])) ls

pub grouped : List QuickLink → Dict (List QuickLink)
unfolding group_into
grouped links = group_into [] links

-- White space that `trim` takes off.
pub is_space : ℕ → Bool
is_space c =
    leb 9 c && leb c 13
    || c == 32
    || c == 160
    || c == 0x1680
    || leb 0x2000 c && leb c 0x200a
    || c == 0x2028
    || c == 0x2029
    || c == 0x202f
    || c == 0x205f
    || c == 0x3000
    || c == 0xfeff

pub trim_start : String → String
unfolding is_space
trim_start String.[] = ""
trim_start (String.◌∷◌ c s) =
    let rest = trim_start s in if is_space (code c) then rest else String.◌∷◌ c s

pub trim_end : String → String
unfolding is_space
trim_end String.[] = ""
trim_end (String.◌∷◌ c s) =
    let rest = trim_end s in if is_space (code c) && str_eq rest "" then "" else String.◌∷◌ c rest

pub trim : String → String
unfolding trim_start trim_end
trim s = trim_end (trim_start s)

-- The fields of the dialog that adds a link.
pub record Draft : Type 0 where
  pub name : String
  pub local_url : String
  pub domain_url : String
  pub category : String

-- addNewLink, with the random id as an argument: the new list.
pub add_new_link : String → Draft → List QuickLink → List QuickLink
unfolding trim
add_new_link fresh draft links =
    if str_eq (trim draft.name) ""
    then links
    else links
      ++ record {
        id = fresh;
        name = trim draft.name;
        local_url = draft.local_url;
        domain_url = draft.domain_url;
        category = some draft.category;
      }
        ∷ []

-- saveEdit, for the link with an id
pub save_edit : String → Draft → List QuickLink → List QuickLink
save_edit editing draft [] = []
save_edit editing draft (l ∷ ls) =
    (if str_eq l.id editing
      then record l {
        name = draft.name;
        local_url = draft.local_url;
        domain_url = draft.domain_url;
        category = some draft.category;
      }
      else l)
    ∷ save_edit editing draft ls

pub remove_link : String → List QuickLink → List QuickLink
remove_link id links = keep (λ l. not (str_eq l.id id)) links

pub find_link : String → List QuickLink → Option ℕ
find_link id [] = none
find_link id (l ∷ ls) = elim (find_link id ls) [
  | none ↦ if str_eq l.id id then some 0 else none
  | some i ↦ if str_eq l.id id then some 0 else some (suc i)
]

pub data Direction : Type 0 where
  left right : Direction

abbrev pub has_category : String → Option QuickLink → Bool
has_category cat none = false
has_category cat (some l) = str_eq (category_of l) cat

-- `for (let i = idx - 1; i >= 0; i--)`
pub find_before : String → List QuickLink → ℕ → Option ℕ
find_before cat links zero = none
find_before cat links (suc i) =
    let rest = find_before cat links i in
    if has_category cat (get_elem? links i) then some i else rest

-- `for (let i = idx + 1; i < quickLinks.length; i++)`, over the rounds that are left
pub find_after : String → List QuickLink → ℕ → ℕ → Option ℕ
find_after cat links zero i = none
find_after cat links (suc rounds) i =
    let rest = find_after cat links rounds (i + 1) in
    if has_category cat (get_elem? links i) then some i else rest

pub target : Direction → String → List QuickLink → ℕ → Option ℕ
unfolding find_before find_after
target left cat links idx = find_before cat links idx
target right cat links idx = find_after cat links (length links - (idx + 1)) (idx + 1)

-- `splice(i, 1)` and `splice(i, 0, item)`
abbrev pub remove_at : ℕ → List QuickLink → List QuickLink
remove_at i links = take i links ++ drop (suc i) links

abbrev pub insert_at : ℕ → QuickLink → List QuickLink → List QuickLink
insert_at i l links = take i links ++ l ∷ drop i links

pub relocate : Option ℕ → ℕ → QuickLink → List QuickLink → List QuickLink
relocate none idx item links = links
relocate (some to) idx item links = insert_at to item (remove_at idx links)

pub move_at : Option ℕ → Direction → List QuickLink → List QuickLink
unfolding relocate target
move_at none direction links = links
move_at (some idx) direction links = elim (get_elem? links idx) [
  | none ↦ links
  | some item ↦ relocate (target direction (category_of item) links idx) idx item links
]

pub move_link : String → Direction → List QuickLink → List QuickLink
unfolding move_at find_link
move_link id direction links = move_at (find_link id links) direction links
