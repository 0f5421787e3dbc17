-- ===== src/PackageUpdates/Selection.antt =====
-- Which packages can be selected.
use bezel_custom.Prelude.{
  ◌≡◌, refl, String, Bool, true, false, not, Option, none, some, List, [], ◌∷◌, str_eq, eq_refl,
  ◌&&◌, keep, arith, All, All-imp, All-keep, All-map, All-append, Bool-cases, inl, inr, get_elem?,
  ℕ, zero, suc,
}
use bezel_custom.Search.{split_spaces, non_empty, every_term}
use bezel_custom.NameSet.{has, add, delete}
use bezel_custom.PackageUpdates.{
  PackageUpdate, State, or_none, lists_name, check_now, apply_selected, apply_names,
}
use bezel_custom.PackageUpdates.Steps.{
  Click, click_security, click_check, click_apply, click_all, click_row, click_checkbox, click_hold,
  type_filter, when, toggle_row, click, shows_rows,
}
use bezel_custom.PackageUpdates.View.{
  names, security_updates, select_security, set_of, every_selected, delete_all, toggle_names,
  toggle_all, toggle_one, filtered_by, filtered_updates, selectable_updates,
}

module _ {A : Type 0} (P : A → Type 0) where
  abbrev pub Of : Option A → Type 0
  Of none = Unit
  Of (some a) = P a

  get_elem?-Of : (xs : List A) (i : ℕ) → All P xs → Of (get_elem? xs i)
  get_elem?-Of [] i h = tt
  get_elem?-Of (x ∷ xs) zero h = h.0
  get_elem?-Of (x ∷ xs) (suc i) h = get_elem?-Of xs i h.1

-- A property of names, over what the operations on sets make.
module _ (P : String → Type 0) where
  add-All : (name : String) (xs : List String) → P name → All P xs → All P (add name xs)
  unfolding add
  add-All name xs p h = elim (Bool-cases (has name xs)) [
    | inl there ↦ rw there h
    | inr absent ↦ rw absent (All-append P xs (name ∷ []) h (p, tt))
  ]

  pub delete-All : (name : String) (xs : List String) → All P xs → All P (delete name xs)
  unfolding delete
  delete-All name xs h = All-keep P P (λ x. not (str_eq x name)) xs (λ x e p. p) h

  set_of-All : (current xs : List String) → All P current → All P xs → All P (set_of current xs)
  unfolding set_of
  set_of-All current [] h hx = h
  set_of-All current (x ∷ xs) h hx = set_of-All (add x current) xs (add-All x current hx.0 h) hx.1

  delete_all-All :
      (us : List PackageUpdate) (xs : List String) → All P xs → All P (delete_all us xs)
  unfolding delete_all
  delete_all-All [] xs h = h
  delete_all-All (u ∷ us) xs h = delete_all-All us (delete u.n xs) (delete-All u.n xs h)

  toggle_names-All :
      (us : List PackageUpdate) (xs : List String)
      → All (λ u. P u.n) us
      → All P xs
      → All P (toggle_names us xs)
  unfolding toggle_names
  toggle_names-All us xs hu h = elim (Bool-cases (every_selected us xs)) [
    | inl all ↦ rw all (delete_all-All us xs h)
    | inr missing ↦
        rw missing (set_of-All xs (names us) h (All-map (λ u. P u.n) P (λ u. u.n) us (λ u p. p) hu))
  ]

-- An entry that a test keeps lists its name among those kept.
lists_own_name :
    (p : PackageUpdate → Bool) (us : List PackageUpdate)
    → All (λ u. p u ≡ true → lists_name u.n (keep p us) ≡ true) us
unfolding lists_name
lists_own_name p [] = tt
lists_own_name p (x ∷ us) = (
  λ e. rw (e, eq_refl x.n) refl,
  All-imp (λ u. p u ≡ true → lists_name u.n (keep p us) ≡ true)
      (λ u. p u ≡ true → lists_name u.n (keep p (x ∷ us)) ≡ true) us
      (λ u h e. let there : lists_name u.n (keep p us) ≡ true = h e in ground (arith, there))
      (lists_own_name p us),
)

pub lists_name-keep :
    (name : String) (p : PackageUpdate → Bool) (us : List PackageUpdate)
    → lists_name name (keep p us) ≡ true
    → lists_name name us ≡ true
unfolding lists_name
lists_name-keep name p [] h = h
lists_name-keep name p (u ∷ us) h = ground (arith, lists_name-keep name p us)

abbrev pub is_free : PackageUpdate → Bool
is_free u = not u.hd

module _ (P : PackageUpdate → Type 0) (lower : String → String) where
  filtered_by-All :
      (terms : List String) (us : List PackageUpdate)
      → All P us
      → All P (filtered_by lower terms us)
  unfolding filtered_by
  filtered_by-All [] us h = h
  filtered_by-All (t ∷ ts) us h =
      All-keep P P (λ u. every_term (t ∷ ts) (lower u.n)) us (λ u e p. p) h

  pub filtered-All : (s : State) → All P (or_none s.updates) → All P (filtered_updates lower s)
  unfolding filtered_updates
  filtered-All s h =
      filtered_by-All (non_empty (split_spaces (lower s.filter_text))) (or_none s.updates) h

abbrev pub is_hold : Click → Bool
is_hold (click_hold i) = true
is_hold _ = false

-- A property of all names of free updates, over what is selected.
module _ (P : String → Type 0) (lower : String → String) (s : State)
    (free : (name : String)
      → lists_name name (keep is_free (or_none s.updates)) ≡ true
      → P name) where
  -- A free update is listed among the free ones.
  abbrev IsOwn : PackageUpdate → Type 0
  IsOwn u = is_free u ≡ true → P u.n

  listed-IsOwn : All IsOwn (or_none s.updates)
  listed-IsOwn =
      All-imp (λ u. is_free u ≡ true → lists_name u.n (keep is_free (or_none s.updates)) ≡ true)
        IsOwn (or_none s.updates) (λ u own e. free u.n (own e))
        (lists_own_name is_free (or_none s.updates))

  toggle_all-All : All P s.selected → All P (toggle_all lower s).selected
  unfolding toggle_all selectable_updates
  toggle_all-All h =
      toggle_names-All P (keep is_free (filtered_updates lower s)) s.selected
        (All-keep IsOwn (λ u. P u.n) is_free (filtered_updates lower s) (λ u e own. own e)
          (filtered-All IsOwn lower s listed-IsOwn))
        h

  select_security-All : All P (select_security s).selected
  unfolding select_security security_updates
  select_security-All =
      let p : PackageUpdate → Bool = (λ u. u.sec && not u.hd) in
      set_of-All P [] (names (keep p (or_none s.updates))) tt (
        All-map (λ u. P u.n) P (λ u. u.n) (keep p (or_none s.updates)) (λ u h. h)
          (All-keep IsOwn (λ u. P u.n) p (or_none s.updates) (λ u e own. own (ground (arith, e)))
            listed-IsOwn))

  toggle_one-All : (name : String) → P name → All P s.selected → All P (toggle_one name s).selected
  unfolding toggle_one
  toggle_one-All name own h = elim (Bool-cases (has name s.selected)) [
    | inl there ↦ rw there (delete-All P name s.selected h)
    | inr absent ↦ rw absent (All-append P s.selected (name ∷ []) h (own, tt))
  ]

  toggle_row-All :
      (row : Option PackageUpdate)
      → Of IsOwn row
      → All P s.selected
      → All P (toggle_row row s).selected
  unfolding toggle_row
  toggle_row-All none own h = h
  toggle_row-All (some u) own h = elim (Bool-cases u.hd) [
    | inl held ↦ rw held h
    | inr free ↦ rw free (toggle_one-All u.n (own (rw free refl)) h)
  ]

  when-All :
      (test : Bool) (next : State)
      → All P next.selected
      → All P s.selected
      → All P (when test next s).selected
  unfolding when
  when-All true next n h = n
  when-All false next n h = h

  row_click-All :
      (test : Bool) (i : ℕ)
      → All P s.selected
      → All P (when test (toggle_row (get_elem? (filtered_updates lower s) i) s) s).selected
  row_click-All test i h =
      when-All test (toggle_row (get_elem? (filtered_updates lower s) i) s)
        (toggle_row-All (get_elem? (filtered_updates lower s) i)
          (get_elem?-Of IsOwn (filtered_updates lower s) i
            (filtered-All IsOwn lower s listed-IsOwn))
          h)
        h

  apply_names-All :
      (xs : List String) (s : State) → All P s.selected → All P (apply_names xs s).selected
  unfolding apply_names
  apply_names-All [] s h = h
  apply_names-All (x ∷ xs) s h = h

  -- What a click selects has the property, if the click holds no package.
  pub click-All :
      (c : Click) → is_hold c ≡ false → All P s.selected → All P (click lower c s).selected
  unfolding click check_now apply_selected
  click-All click_security e h = when-All _ (select_security s) select_security-All h
  click-All click_check e h = when-All _ (check_now s) h h
  click-All click_apply e h = when-All _ (apply_selected s) (apply_names-All s.selected s h) h
  click-All click_all e h = when-All (shows_rows s) (toggle_all lower s) (toggle_all-All h) h
  click-All (click_row i) e h = row_click-All (shows_rows s) i h
  click-All (click_checkbox i) e h = row_click-All (shows_rows s) i h
  click-All (click_hold i) e h = cc
  click-All (type_filter text) e h = when-All (shows_rows s) (record s { filter_text = text }) h h
