-- ===== src/PackageUpdates/Holds.antt =====
-- The names of the selection after a hold.
use bezel_custom.Prelude.{
  ◌≡◌, refl, ◌∙◌, String, Bool, true, false, not, Option, none, some, List, [], ◌∷◌, str_eq, eq_iff,
  if◌then◌else◌, keep, arith, All, All-imp, All-keep,
}
use bezel_custom.NameSet.{delete}
use bezel_custom.PackageUpdates.{
  PackageUpdate, State, or_none, lists_name, mark_held, mark_updates, set_hold,
}
use bezel_custom.PackageUpdates.Selection.{is_free, delete-All}

-- Every selected name is that of a listed update which is not held.
abbrev pub IsApplicable : State → Type 0
IsApplicable s = All (λ name. lists_name name (keep is_free (or_none s.updates)) ≡ true) s.selected

-- Every selected name is that of a listed update.
abbrev pub IsListed : State → Type 0
IsListed s = All (λ name. lists_name name (or_none s.updates) ≡ true) s.selected

-- What is held is taken off the selection, and nothing else changes.
mark_held-other :
    (name pkg : String) (value : Bool) (us : List PackageUpdate)
    → str_eq name pkg ≡ false
    → lists_name name (keep is_free (mark_held pkg value us)) ≡ lists_name name (keep is_free us)
unfolding mark_held lists_name
mark_held-other name pkg value [] h = refl
mark_held-other name pkg value (u ∷ us) h =
    ground
      (arith, mark_held-other name pkg value us h, eq_iff u.n pkg, eq_iff u.n name, eq_iff name pkg)

-- An update stays free if it is released.
mark_held-free :
    (name pkg : String) (us : List PackageUpdate)
    → lists_name name (keep is_free us) ≡ true
    → lists_name name (keep is_free (mark_held pkg false us)) ≡ true
unfolding mark_held lists_name
mark_held-free name pkg [] h = h
mark_held-free name pkg (u ∷ us) h = ground (arith, mark_held-free name pkg us)

held_selection :
    (pkg : String) (us : List PackageUpdate) (xs : List String)
    → All (λ x. lists_name x (keep is_free us) ≡ true) xs
    → All (λ x. lists_name x (keep is_free (mark_held pkg true us)) ≡ true) (delete pkg xs)
unfolding delete
held_selection pkg us xs h =
    All-keep (λ x. lists_name x (keep is_free us) ≡ true)
      (λ x. lists_name x (keep is_free (mark_held pkg true us)) ≡ true) (λ x. not (str_eq x pkg)) xs
      (λ x e free. mark_held-other x pkg true us (ground (arith, e)) ∙ free) h

hold-free :
    (pkg : String) (value : Bool) (o : Option (List PackageUpdate)) (xs : List String)
    → All (λ x. lists_name x (keep is_free (or_none o)) ≡ true) xs
    → All
        (λ x. lists_name x (keep is_free (or_none (mark_updates pkg value o))) ≡ true)
        (if value then delete pkg xs else xs)
unfolding mark_updates
hold-free pkg true none xs h = delete-All (λ x. lists_name x [] ≡ true) pkg xs h
hold-free pkg false none xs h = h
hold-free pkg true (some us) xs h = held_selection pkg us xs h
hold-free pkg false (some us) xs h =
    All-imp (λ x. lists_name x (keep is_free us) ≡ true)
      (λ x. lists_name x (keep is_free (mark_held pkg false us)) ≡ true) xs
      (λ x free. mark_held-free x pkg us free) h

pub set_hold-IsApplicable :
    (s : State) (pkg : String) (value : Bool) → IsApplicable s → IsApplicable (set_hold pkg value s)
unfolding set_hold
set_hold-IsApplicable s pkg value h = hold-free pkg value s.updates s.selected h

mark_held-lists_name :
    (name pkg : String) (value : Bool) (us : List PackageUpdate)
    → lists_name name us ≡ true
    → lists_name name (mark_held pkg value us) ≡ true
unfolding mark_held lists_name
mark_held-lists_name name pkg value [] h = h
mark_held-lists_name name pkg value (u ∷ us) h =
    ground (arith, mark_held-lists_name name pkg value us)

mark_updates-lists_name :
    (name pkg : String) (value : Bool) (o : Option (List PackageUpdate))
    → lists_name name (or_none o) ≡ true
    → lists_name name (or_none (mark_updates pkg value o)) ≡ true
unfolding mark_updates
mark_updates-lists_name name pkg value none h = h
mark_updates-lists_name name pkg value (some us) h = mark_held-lists_name name pkg value us h

held_or_not :
    (P : String → Type 0) (pkg : String) (value : Bool) (xs : List String)
    → All P xs
    → All P (if value then delete pkg xs else xs)
held_or_not P pkg true xs h = delete-All P pkg xs h
held_or_not P pkg false xs h = h

pub set_hold-IsListed :
    (s : State) (pkg : String) (value : Bool) → IsListed s → IsListed (set_hold pkg value s)
unfolding set_hold
set_hold-IsListed s pkg value h =
    let P : String → Type 0 =
      (λ x. lists_name x (or_none (mark_updates pkg value s.updates)) ≡ true) in
    held_or_not P pkg value s.selected (
      All-imp (λ x. lists_name x (or_none s.updates) ≡ true) P s.selected
        (λ x there. mark_updates-lists_name x pkg value s.updates there) h)
