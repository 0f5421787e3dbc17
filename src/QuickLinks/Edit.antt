-- ===== src/QuickLinks/Edit.antt =====
-- What adding, editing and removing a link does, and what the page's groups hold.
use mathlib.Core.List.{append_assoc, append-nil}
use bezel_custom.Prelude.{
  ◌≡◌, refl, sym, ap, ◌∙◌, String, Option, none, some, List, [], ◌∷◌, ◌++◌, arith, str_eq, eq_iff,
  if◌then◌else◌, Bool-cases, inl, inr, subst,
}
use bezel_custom.Dict.{Dict, get, put, get-put}
use bezel_custom.QuickLinks.{
  QuickLink, Draft, category_of, or_empty, group_into, grouped, trim, add_new_link, save_edit,
  remove_link,
}
use bezel_custom.QuickLinks.Move.{linked, in_category}

-- What a group is once more links are pushed onto it.
abbrev pub pushed : Option (List QuickLink) → List QuickLink → Option (List QuickLink)
pushed group [] = group
pushed none (l ∷ ls) = some (l ∷ ls)
pushed (some group) (l ∷ ls) = some (group ++ l ∷ ls)

pushed-cons :
    (group : Option (List QuickLink)) (l : QuickLink) (ls : List QuickLink)
    → pushed (some (or_empty group ++ l ∷ [])) ls ≡ pushed group (l ∷ ls)
pushed-cons none l [] = refl
pushed-cons none l (x ∷ xs) = refl
pushed-cons (some group) l [] = refl
pushed-cons (some group) l (x ∷ xs) = ap some (append_assoc group (l ∷ []) (x ∷ xs))

get-group_into :
    (groups : Dict (List QuickLink)) (links : List QuickLink) (cat : String)
    → get (group_into groups links) cat ≡ pushed (get groups cat) (in_category cat links)
unfolding group_into
get-group_into groups [] cat = refl
get-group_into groups (l ∷ ls) cat =
    get-group_into (put groups (category_of l) (or_empty (get groups (category_of l)) ++ l ∷ [])) ls
      cat
    ∙ elim (Bool-cases (str_eq (category_of l) cat)) [
      | inl same ↦
          rw
            (
              get-put groups (category_of l) cat (or_empty (get groups (category_of l)) ++ l ∷ []),
              same,
            )
            (subst
              (λ c.
                pushed (some (or_empty (get groups c) ++ l ∷ [])) (in_category cat ls)
                ≡ pushed (get groups cat) (l ∷ in_category cat ls))
              (sym ((eq_iff (category_of l) cat).0 same))
              (pushed-cons (get groups cat) l (in_category cat ls)))
      | inr other ↦
          rw
            (
              get-put groups (category_of l) cat (or_empty (get groups (category_of l)) ++ l ∷ []),
              other,
            )
            refl
    ]

-- The page's group of a category holds the links of that category in the order of the list, and
-- there is no group for a category that no link has.
pub get-grouped :
    (links : List QuickLink) (cat : String)
    → get (grouped links) cat ≡ pushed none (in_category cat links)
unfolding grouped get
get-grouped links cat = get-group_into [] links cat

abbrev pub edited : Draft → Option QuickLink → Option QuickLink
edited draft none = none
edited draft (some l) = some (record l {
  name = draft.name;
  local_url = draft.local_url;
  domain_url = draft.domain_url;
  category = some draft.category;
})

linked-save_edit :
    (editing : String) (draft : Draft) (links : List QuickLink) (id : String)
    → linked id (save_edit editing draft links)
      ≡ (if str_eq editing id then edited draft (linked id links) else linked id links)
unfolding save_edit
linked-save_edit editing draft [] id = ground arith
linked-save_edit editing draft (l ∷ ls) id = ground (
  arith,
  linked-save_edit editing draft ls id,
  eq_iff l.id editing,
  eq_iff l.id id,
  eq_iff editing id,
)

linked-remove_link :
    (removed : String) (links : List QuickLink) (id : String)
    → linked id (remove_link removed links) ≡ (if str_eq removed id then none else linked id links)
unfolding remove_link
linked-remove_link removed [] id = ground arith
linked-remove_link removed (l ∷ ls) id = ground (
  arith,
  linked-remove_link removed ls id,
  eq_iff l.id removed,
  eq_iff l.id id,
  eq_iff removed id,
)

-- The link that the dialog makes.
abbrev pub made : String → Draft → QuickLink
made fresh draft = record {
  id = fresh;
  name = trim draft.name;
  local_url = draft.local_url;
  domain_url = draft.domain_url;
  category = some draft.category;
}

pushed-append :
    (group : Option (List QuickLink)) (xs ys : List QuickLink)
    → pushed (pushed group xs) ys ≡ pushed group (xs ++ ys)
pushed-append group [] ys = refl
pushed-append none (x ∷ xs) [] = ap (λ zs. some (x ∷ zs)) (sym (append-nil xs))
pushed-append none (x ∷ xs) (y ∷ ys) = refl
pushed-append (some group) (x ∷ xs) [] = ap (λ zs. some (group ++ x ∷ zs)) (sym (append-nil xs))
pushed-append (some group) (x ∷ xs) (y ∷ ys) = ap some (append_assoc group (x ∷ xs) (y ∷ ys))

in_category-append :
    (cat : String) (xs ys : List QuickLink)
    → in_category cat (xs ++ ys) ≡ in_category cat xs ++ in_category cat ys
in_category-append cat [] ys = refl
in_category-append cat (x ∷ xs) ys = ground (arith, in_category-append cat xs ys)

-- The links that the dialog adds.
abbrev pub added : String → Draft → List QuickLink
added fresh draft = if str_eq (trim draft.name) "" then [] else made fresh draft ∷ []

-- Adding a link puts it, under its trimmed name, at the end of the page's group of its category,
-- which it opens if there is none; no other group changes, and a name of white space only adds
-- nothing.
pub get-grouped-add_new_link :
    (fresh : String) (draft : Draft) (links : List QuickLink) (cat : String)
    → get (grouped (add_new_link fresh draft links)) cat
      ≡ pushed (get (grouped links) cat) (in_category cat (added fresh draft))
unfolding add_new_link
get-grouped-add_new_link fresh draft links cat = elim (Bool-cases (str_eq (trim draft.name) "")) [
  | inl blank ↦ rw blank refl
  | inr named ↦
      rw (named, get-grouped links cat)
        (get-grouped (links ++ made fresh draft ∷ []) cat
          ∙ ap (pushed none) (in_category-append cat links (made fresh draft ∷ []))
          ∙ sym (
              pushed-append none (in_category cat links) (in_category cat (made fresh draft ∷ []))))
]

-- Saving an edit gives the first link with the edited id the fields of the dialog, adds none if
-- there is no such link, and leaves the first link of any other id as it is; after a link is
-- removed no link has its id, and the first link of any other id is as it was.
pub linked-edits :
    (id : String) (draft : Draft) (links : List QuickLink) (other : String)
    → (linked other (save_edit id draft links)
        ≡ (if str_eq id other then edited draft (linked other links) else linked other links))
      × (linked other (remove_link id links)
          ≡ (if str_eq id other then none else linked other links))
linked-edits id draft links other =
    (linked-save_edit id draft links other, linked-remove_link id links other)
