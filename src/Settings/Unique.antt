-- ===== src/Settings/Unique.antt =====
-- No link stands twice after the settings are loaded.
use bezel_custom.Prelude.{
  ◌≡◌, refl, String, Bool, true, false, not, Option, none, some, List, [], ◌∷◌, ◌++◌, eq_iff, arith,
  keep, All, All-imp, All-keep, All-always, ◌||◌, Bool-cases, inl, inr,
}
use bezel_custom.QuickLinks.{QuickLink}
use bezel_custom.Settings.{
  UserSettings, World, Local, absent, broken, holds, or_none, has_id, new_links, merge_links,
  migrate, load, update_user_settings, set_user_settings, create_row,
}
use bezel_custom.Settings.Migration.{links_of}

-- No two links of a list have one id.
abbrev pub IsUnique : List QuickLink → Type 0
IsUnique [] = Unit
IsUnique (l ∷ ls) = (has_id l.id ls ≡ false) × IsUnique ls

has_id-append :
    (id : String) (xs ys : List QuickLink) → has_id id (xs ++ ys) ≡ (has_id id xs || has_id id ys)
unfolding has_id
has_id-append id [] ys = refl
has_id-append id (x ∷ xs) ys = ground (arith, has_id-append id xs ys)

has_id-keep :
    (id : String) (p : QuickLink → Bool) (xs : List QuickLink)
    → has_id id xs ≡ false
    → has_id id (keep p xs) ≡ false
unfolding has_id
has_id-keep id p [] h = refl
has_id-keep id p (x ∷ xs) h = ground (arith, has_id-keep id p xs)

keep-IsUnique : (p : QuickLink → Bool) (xs : List QuickLink) → IsUnique xs → IsUnique (keep p xs)
keep-IsUnique p [] h = tt
keep-IsUnique p (x ∷ xs) h = elim (Bool-cases (p x)) [
  | inl kept ↦ rw kept (has_id-keep x.id p xs h.0, keep-IsUnique p xs h.1)
  | inr left ↦ rw left (keep-IsUnique p xs h.1)
]

-- No link of the second list has the id of one of the first.
abbrev IsApart : List QuickLink → List QuickLink → Type 0
IsApart xs = All (λ y. has_id y.id xs ≡ false)

IsApart-has_id :
    (x : QuickLink) (xs ys : List QuickLink) → IsApart (x ∷ xs) ys → has_id x.id ys ≡ false
unfolding has_id
IsApart-has_id x xs [] h = refl
IsApart-has_id x xs (y ∷ ys) h =
    ground (arith, IsApart-has_id x xs ys h.1, h.0, eq_iff x.id y.id, eq_iff y.id x.id)

IsApart-tail : (x : QuickLink) (xs ys : List QuickLink) → IsApart (x ∷ xs) ys → IsApart xs ys
unfolding has_id
IsApart-tail x xs ys =
    All-imp (λ y. has_id y.id (x ∷ xs) ≡ false) (λ y. has_id y.id xs ≡ false) ys
      (λ y h. ground (arith, h))

not-true : (b : Bool) → not b ≡ true → b ≡ false
not-true b h = ground arith

append-IsUnique :
    (xs ys : List QuickLink) → IsUnique xs → IsUnique ys → IsApart xs ys → IsUnique (xs ++ ys)
append-IsUnique [] ys hx hy apart = hy
append-IsUnique (x ∷ xs) ys hx hy apart = (
  ground (arith, has_id-append x.id xs ys, hx.0, IsApart-has_id x xs ys apart),
  append-IsUnique xs ys hx.1 hy (IsApart-tail x xs ys apart),
)

new_links-IsApart : (server ls : List QuickLink) → IsApart server (new_links server ls)
unfolding new_links
new_links-IsApart server ls =
    All-keep {0, 0, 0} (λ l. Unit) (λ l. has_id l.id server ≡ false) (λ l. not (has_id l.id server))
      ls (λ l kept u. not-true (has_id l.id server) kept) (All-always (λ l. Unit) ls (λ l. tt))

merge_links-IsUnique :
    (saved : Bool) (s : UserSettings) (server new : List QuickLink) (w : World)
    → IsUnique server
    → IsUnique (server ++ new)
    → IsUnique (merge_links saved s server new w).quick_links
unfolding merge_links
merge_links-IsUnique saved s server [] w h both = h
merge_links-IsUnique true s server (l ∷ ls) w h both = both
merge_links-IsUnique false s server (l ∷ ls) w h both = h

migrate-IsUnique :
    (saved : Bool) (s : UserSettings) (server : List QuickLink) (local : Local) (w : World)
    → IsUnique server
    → IsUnique (links_of local)
    → IsUnique (migrate saved s server local w).quick_links
unfolding migrate new_links
migrate-IsUnique saved s server absent w h own = h
migrate-IsUnique saved s server broken w h own = h
migrate-IsUnique saved s server (holds ls) w h own =
    merge_links-IsUnique saved s server (new_links server ls) w h (
      append-IsUnique server (new_links server ls) h
        (keep-IsUnique (λ l. not (has_id l.id server)) ls own) (new_links-IsApart server ls))

-- The links of the server, if there is a row, have no id twice.
abbrev pub RowIsUnique : Option UserSettings → Type 0
RowIsUnique none = Unit
RowIsUnique (some s) = IsUnique (or_none s.quick_links)

create_row-IsUnique :
    (initial : UserSettings) (created : Bool) (row : Option UserSettings) (w : World)
    → IsUnique w.quick_links
    → IsUnique (create_row initial created row w).quick_links
unfolding create_row
create_row-IsUnique initial true none w h = tt
create_row-IsUnique initial false none w h = h
create_row-IsUnique initial created (some s) w h = h

answer-IsUnique :
    (initial : UserSettings) (saved created : Bool) (answer : Option UserSettings) (w : World)
    → IsUnique w.quick_links
    → RowIsUnique answer
    → IsUnique (links_of w.local)
    → IsUnique
        (elim answer as (λ _. World) [
          | none ↦ create_row initial created w.row w
          | some s ↦ load saved s w
        ]).quick_links
unfolding load
answer-IsUnique initial saved created none w h server own =
    create_row-IsUnique initial created w.row w h
answer-IsUnique initial saved created (some s) w h server own =
    migrate-IsUnique saved s (or_none s.quick_links) w.local
      (record (set_user_settings s w) { external_links = or_none s.external_links }) server own

-- If no two links of the page, of the server's row and of the local storage have one id each, then
-- no two links of the page have one id after the settings are loaded, whichever requests succeed.
pub update_user_settings-IsUnique :
    (initial : UserSettings) (fetched saved created : Bool) (w : World)
    → IsUnique w.quick_links
    → RowIsUnique w.row
    → IsUnique (links_of w.local)
    → IsUnique (update_user_settings initial fetched saved created w).quick_links
unfolding update_user_settings
update_user_settings-IsUnique initial true saved created w h server own =
    answer-IsUnique initial saved created w.row w h server own
update_user_settings-IsUnique initial false saved created w h server own =
    answer-IsUnique initial saved created none w h tt own
