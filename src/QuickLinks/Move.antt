-- ===== src/QuickLinks/Move.antt =====
-- What moving a link does to the order.
use mathlib.Core.List.{Perm}
use mathlib.Core.List.Perm
use bezel_custom.Prelude.{
  ℕ, zero, suc, ◌≡◌, ◌≢◌, refl, String, Option, none, some, List, [], ◌∷◌, arith, str_eq, eq_iff,
  if◌then◌else◌, keep, get_elem?, subst, some-injective, Option-cases, Bool-cases, inl, inr, ◌∙◌,
}
use bezel_custom.QuickLinks.{
  QuickLink, category_of, Direction, target, remove_at, insert_at, relocate, move_at, move_link,
  find_link,
}

insert_at-perm :
    (i : ℕ) (l : QuickLink) (links : List QuickLink) → Perm (insert_at i l links) (l ∷ links)
insert_at-perm zero l links = Perm.refl (l ∷ links)
insert_at-perm (suc i) l [] = Perm.refl (l ∷ [])
insert_at-perm (suc i) l (x ∷ xs) =
    Perm.trans (Perm.cons x (insert_at-perm i l xs)) (Perm.swap l x xs)

remove_at-perm :
    (i : ℕ) (l : QuickLink) (links : List QuickLink)
    → get_elem? links i ≡ some l
    → Perm (l ∷ remove_at i links) links
remove_at-perm i l [] e = cc
remove_at-perm zero l (x ∷ xs) e =
    subst (λ y. Perm (y ∷ xs) (x ∷ xs)) (some-injective x l e) (Perm.refl (x ∷ xs))
remove_at-perm (suc i) l (x ∷ xs) e =
    Perm.trans (Perm.swap x l (remove_at i xs)) (Perm.cons x (remove_at-perm i l xs e))

relocate-perm :
    (to : Option ℕ) (idx : ℕ) (l : QuickLink) (links : List QuickLink)
    → get_elem? links idx ≡ some l
    → Perm (relocate to idx l links) links
unfolding relocate
relocate-perm none idx l links e = Perm.refl links
relocate-perm (some to) idx l links e =
    Perm.trans (insert_at-perm to l (remove_at idx links)) (remove_at-perm idx l links e)

move_at-perm :
    (found : Option ℕ) (d : Direction) (links : List QuickLink) → Perm (move_at found d links) links
unfolding move_at
move_at-perm none d links = Perm.refl links
move_at-perm (some idx) d links = elim (Option-cases (get_elem? links idx)) [
  | inl e ↦ rw (move_at, e) (Perm.refl links)
  | inr (item, e) ↦
      rw (move_at, e) (relocate-perm (target d (category_of item) links idx) idx item links e)
]

-- Moving a link leaves the same links in the list, each as often as before, whatever the id and
-- the direction.
pub move_link-perm :
    (id : String) (d : Direction) (links : List QuickLink) → Perm (move_link id d links) links
unfolding move_link
move_link-perm id d links = move_at-perm (find_link id links) d links

abbrev pub in_category : String → List QuickLink → List QuickLink
in_category cat links = keep (λ l. str_eq (category_of l) cat) links

in_category-insert_at :
    (cat : String) (i : ℕ) (l : QuickLink) (links : List QuickLink)
    → category_of l ≢ cat
    → in_category cat (insert_at i l links) ≡ in_category cat links
in_category-insert_at cat zero l links ne = ground (arith, eq_iff (category_of l) cat)
in_category-insert_at cat (suc i) l [] ne = ground (arith, eq_iff (category_of l) cat)
in_category-insert_at cat (suc i) l (x ∷ xs) ne =
    ground (arith, in_category-insert_at cat i l xs ne)

in_category-remove_at :
    (cat : String) (i : ℕ) (l : QuickLink) (links : List QuickLink)
    → get_elem? links i ≡ some l
    → category_of l ≢ cat
    → in_category cat (remove_at i links) ≡ in_category cat links
in_category-remove_at cat i l [] e ne = cc
in_category-remove_at cat zero l (x ∷ xs) e ne = ground (arith, eq_iff (category_of l) cat)
in_category-remove_at cat (suc i) l (x ∷ xs) e ne =
    ground (arith, in_category-remove_at cat i l xs e ne)

in_category-relocate :
    (cat : String) (to : Option ℕ) (idx : ℕ) (l : QuickLink) (links : List QuickLink)
    → get_elem? links idx ≡ some l
    → category_of l ≢ cat
    → in_category cat (relocate to idx l links) ≡ in_category cat links
unfolding relocate
in_category-relocate cat none idx l links e ne = refl
in_category-relocate cat (some to) idx l links e ne =
    in_category-insert_at cat to l (remove_at idx links) ne
    ∙ in_category-remove_at cat idx l links e ne

-- The link that an id stands for, the first one that has it.
abbrev pub linked : String → List QuickLink → Option QuickLink
linked id [] = none
linked id (l ∷ ls) = let rest = linked id ls in if str_eq l.id id then some l else rest

pub find_link-linked :
    (id : String) (links : List QuickLink) (l : QuickLink)
    → linked id links ≡ some l
    → (i : ℕ) × (find_link id links ≡ some i) × (get_elem? links i ≡ some l)
unfolding find_link
find_link-linked id [] l e = cc
find_link-linked id (x ∷ xs) l e = elim (Bool-cases (str_eq x.id id)) [
  | inl same ↦ (0, ground (arith, same), ground (arith, same))
  | inr other ↦
      let (i, found, at) = find_link-linked id xs l (ground (arith, other)) in
      (suc i, rw (found, other) refl, at)
]

-- Moving the link that an id stands for leaves the links of every category but its own as they
-- are, in the same order.
pub move_link-in_category :
    (id : String) (d : Direction) (cat : String) (links : List QuickLink) (l : QuickLink)
    → linked id links ≡ some l
    → category_of l ≢ cat
    → in_category cat (move_link id d links) ≡ in_category cat links
unfolding move_link move_at
move_link-in_category id d cat links l e ne =
    let (i, found, at) = find_link-linked id links l e in
    rw (found, move_at, at)
      (in_category-relocate cat (target d (category_of l) links i) i l links at ne)
