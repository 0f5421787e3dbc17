-- ===== src/PackageUpdates/Toggles.antt =====
-- What the checkbox of the header selects, and which updates the filter shows.
use bezel_custom.Prelude.{
  ◌≡◌, refl, ◌∙◌, sym, String, Bool, true, not, List, [], ◌∷◌, arith, ◌||◌, ◌&&◌, if◌then◌else◌,
  keep, Bool-cases, inl, inr,
}
use bezel_custom.Search.{split_spaces, non_empty, every_term}
use bezel_custom.Search.Terms.{every_term-non_empty}
use bezel_custom.NameSet.{has, add, delete, has-add, has-delete}
use bezel_custom.PackageUpdates.{PackageUpdate, State, or_none, lists_name}
use bezel_custom.PackageUpdates.View.{
  names, set_of, every_selected, delete_all, toggle_names, toggle_all, filtered_by,
  filtered_updates, selectable_updates,
}

has-set_of :
    (x : String) (current : List String) (us : List PackageUpdate)
    → has x (set_of current (names us)) ≡ (lists_name x us || has x current)
unfolding set_of lists_name
has-set_of x current [] = refl
has-set_of x current (u ∷ us) =
    ground (arith, has-set_of x (add u.n current) us, has-add x u.n current)

has-delete_all :
    (x : String) (us : List PackageUpdate) (current : List String)
    → has x (delete_all us current) ≡ (not (lists_name x us) && has x current)
unfolding delete_all lists_name
has-delete_all x [] current = refl
has-delete_all x (u ∷ us) current =
    ground (arith, has-delete_all x us (delete u.n current), has-delete x u.n current)

-- The checkbox of the header takes every update that is shown and not held off the selection if
-- all of them are selected, and puts every one of them on it if not; the rest of the selection is
-- kept, also what the filter hides.
pub has-toggle_all :
    (lower : String → String) (s : State) (x : String)
    → has x (toggle_all lower s).selected ≡ (
        if every_selected (selectable_updates lower s) s.selected
        then not (lists_name x (selectable_updates lower s)) && has x s.selected
        else lists_name x (selectable_updates lower s) || has x s.selected)
unfolding toggle_all toggle_names
has-toggle_all lower s x =
    elim (Bool-cases (every_selected (selectable_updates lower s) s.selected)) [
      | inl all ↦ rw all (has-delete_all x (selectable_updates lower s) s.selected)
      | inr part ↦ rw part (has-set_of x s.selected (selectable_updates lower s))
    ]

keep_same :
    {A : Type 0} (p q : A → Bool) (xs : List A) → ((x : A) → p x ≡ q x) → keep p xs ≡ keep q xs
keep_same p q [] h = refl
keep_same p q (x ∷ xs) h = ground (arith, keep_same p q xs h, h x)

keep_all : {A : Type 0} (xs : List A) → keep (λ x. true) xs ≡ xs
keep_all [] = refl
keep_all (x ∷ xs) = ground (arith, keep_all xs)

filtered_by_lem :
    (lower : String → String) (terms : List String) (us : List PackageUpdate)
    → filtered_by lower terms us ≡ keep (λ u. every_term terms (lower u.n)) us
unfolding filtered_by every_term
filtered_by_lem lower [] us = sym (keep_all us)
filtered_by_lem lower (t ∷ ts) us = refl

-- The updates that are shown are those whose name in lower case has every piece of the filter text
-- in lower case between spaces: to drop empty pieces and to stop early on an empty filter changes
-- nothing.
pub filtered_updates_lem :
    (lower : String → String) (s : State)
    → filtered_updates lower s
      ≡ keep (λ u. every_term (split_spaces (lower s.filter_text)) (lower u.n)) (or_none s.updates)
unfolding filtered_updates
filtered_updates_lem lower s =
    filtered_by_lem lower (non_empty (split_spaces (lower s.filter_text))) (or_none s.updates)
    ∙ keep_same _ _ (or_none s.updates)
        (λ u. every_term-non_empty (split_spaces (lower s.filter_text)) (lower u.n))
