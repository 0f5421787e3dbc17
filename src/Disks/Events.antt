-- ===== src/Disks/Events.antt =====
-- Which disks are listed after events.
use bezel_custom.Prelude.{
  ◌≡◌, refl, ◌∙◌, subst, String, true, false, not, Option, none, some, List, [], ◌∷◌, arith, str_eq,
  eq_iff, ◌||◌, ◌&&◌, if◌then◌else◌, All, All-keep, Bool-cases, inl, inr,
}
use bezel_custom.QuietHours.{Action}
use bezel_custom.Disks.{
  Disk, has_id, without_id, replace, in_scope, upsert, is_delete, next_devices,
}

-- The first disk with an id.
abbrev pub find_id : String → List Disk → Option Disk
find_id id [] = none
find_id id (d ∷ ds) = let rest = find_id id ds in if str_eq d.id id then some d else rest

find_id-without_id :
    (id gone : String) (ds : List Disk)
    → find_id id (without_id gone ds) ≡ (if str_eq gone id then none else find_id id ds)
unfolding without_id
find_id-without_id id gone [] = ground arith
find_id-without_id id gone (d ∷ ds) =
    ground (arith, find_id-without_id id gone ds, eq_iff d.id gone, eq_iff gone id, eq_iff d.id id)

find_id-replace :
    (id : String) (r : Disk) (ds : List Disk)
    → has_id r.id ds ≡ true
    → find_id id (replace r ds) ≡ (if str_eq r.id id then some r else find_id id ds)
unfolding replace has_id
find_id-replace id r [] h = cc
find_id-replace id r (d ∷ ds) h =
    ground (arith, find_id-replace id r ds, eq_iff d.id r.id, eq_iff r.id id, eq_iff d.id id)

find_id-upsert :
    (id : String) (r : Disk) (ds : List Disk)
    → find_id id (upsert r ds) ≡ (if str_eq r.id id then some r else find_id id ds)
unfolding upsert
find_id-upsert id r ds = elim (Bool-cases (has_id r.id ds)) [
  | inl there ↦ rw there (find_id-replace id r ds there)
  | inr absent ↦ rw absent refl
]

-- An event changes what stands under its own id only: nothing stands there after a deletion or if
-- the record is of another system than the page's, and the record does after any other event.
pub find_id-next_devices :
    (scope : Option String) (action : Action) (r : Disk) (ds : List Disk) (id : String)
    → find_id id (next_devices scope action r ds) ≡ (
        if str_eq r.id id
        then (if is_delete action || not (in_scope scope r) then none else some r)
        else find_id id ds)
unfolding next_devices
find_id-next_devices scope action r ds id = elim (Bool-cases (is_delete action)) [
  | inl gone ↦ rw gone (find_id-without_id id r.id ds)
  | inr stays ↦ rw stays (elim (Bool-cases (in_scope scope r)) [
    | inl inside ↦ rw inside (find_id-upsert id r ds)
    | inr outside ↦ rw outside (find_id-without_id id r.id ds)
  ])
]

-- Disks of the page's scope, with no id twice.
abbrev pub IsUnique : List Disk → Type 0
IsUnique [] = Unit
IsUnique (d ∷ ds) = (has_id d.id ds ≡ false) × IsUnique ds

abbrev pub IsScoped : Option String → List Disk → Type 0
IsScoped scope ds = All (λ d. in_scope scope d ≡ true) ds × IsUnique ds

has_id-without_id :
    (id gone : String) (ds : List Disk)
    → has_id id (without_id gone ds) ≡ (not (str_eq gone id) && has_id id ds)
unfolding without_id has_id
has_id-without_id id gone [] = ground arith
has_id-without_id id gone (d ∷ ds) =
    ground (arith, has_id-without_id id gone ds, eq_iff d.id gone, eq_iff gone id, eq_iff d.id id)

has_id-replace : (id : String) (r : Disk) (ds : List Disk) → has_id id (replace r ds) ≡ has_id id ds
unfolding replace has_id
has_id-replace id r [] = refl
has_id-replace id r (d ∷ ds) =
    ground (arith, has_id-replace id r ds, eq_iff d.id r.id, eq_iff r.id id, eq_iff d.id id)

without_id-IsUnique : (gone : String) (ds : List Disk) → IsUnique ds → IsUnique (without_id gone ds)
unfolding without_id
without_id-IsUnique gone [] h = tt
without_id-IsUnique gone (d ∷ ds) h = elim (Bool-cases (str_eq d.id gone)) [
  | inl same ↦ rw same (without_id-IsUnique gone ds h.1)
  | inr other ↦
      rw other
        (ground (arith, has_id-without_id d.id gone ds, h.0), without_id-IsUnique gone ds h.1)
]

replace-IsUnique : (r : Disk) (ds : List Disk) → IsUnique ds → IsUnique (replace r ds)
unfolding replace
replace-IsUnique r [] h = tt
replace-IsUnique r (d ∷ ds) h = elim (Bool-cases (str_eq d.id r.id)) [
  | inl same ↦ rw same (subst (λ x. has_id x ds ≡ false) ((eq_iff d.id r.id).0 same) h.0, h.1)
  | inr other ↦ rw other (has_id-replace d.id r ds ∙ h.0, replace-IsUnique r ds h.1)
]

replace-All :
    (P : Disk → Type 0) (r : Disk) (ds : List Disk) → P r → All P ds → All P (replace r ds)
unfolding replace
replace-All P r [] p h = tt
replace-All P r (d ∷ ds) p h = elim (Bool-cases (str_eq d.id r.id)) [
  | inl same ↦ rw same (p, h.1)
  | inr other ↦ rw other (h.0, replace-All P r ds p h.1)
]

without_id-IsScoped :
    (scope : Option String) (gone : String) (ds : List Disk)
    → IsScoped scope ds
    → IsScoped scope (without_id gone ds)
unfolding without_id
without_id-IsScoped scope gone ds (inside, unique) = (
  All-keep (λ d. in_scope scope d ≡ true) (λ d. in_scope scope d ≡ true)
      (λ d. not (str_eq d.id gone)) ds (λ d e h. h) inside,
  without_id-IsUnique gone ds unique,
)

upsert-IsScoped :
    (scope : Option String) (r : Disk) (ds : List Disk)
    → in_scope scope r ≡ true
    → IsScoped scope ds
    → IsScoped scope (upsert r ds)
unfolding upsert
upsert-IsScoped scope r ds here (inside, unique) = elim (Bool-cases (has_id r.id ds)) [
  | inl there ↦
      rw there
        (replace-All (λ d. in_scope scope d ≡ true) r ds here inside, replace-IsUnique r ds unique)
  | inr absent ↦ rw absent ((here, inside), (absent, unique))
]

next_devices-IsScoped :
    (scope : Option String) (action : Action) (r : Disk) (ds : List Disk)
    → IsScoped scope ds
    → IsScoped scope (next_devices scope action r ds)
unfolding next_devices
next_devices-IsScoped scope action r ds h = elim (Bool-cases (is_delete action)) [
  | inl gone ↦ rw gone (without_id-IsScoped scope r.id ds h)
  | inr stays ↦ rw stays (elim (Bool-cases (in_scope scope r)) [
    | inl inside ↦ rw inside (upsert-IsScoped scope r ds inside h)
    | inr outside ↦ rw outside (without_id-IsScoped scope r.id ds h)
  ])
]

-- Events one after the other.
pub receive_all : Option String → List (Action × Disk) → List Disk → List Disk
receive_all scope [] ds = ds
receive_all scope ((action, r) ∷ events) ds =
    receive_all scope events (next_devices scope action r ds)

-- If the listed disks are all of the page's scope and no id stands twice, both stay so through any
-- events.
pub receive_all-IsScoped :
    (scope : Option String) (events : List (Action × Disk)) (ds : List Disk)
    → IsScoped scope ds
    → IsScoped scope (receive_all scope events ds)
unfolding receive_all
receive_all-IsScoped scope [] ds h = h
receive_all-IsScoped scope ((action, r) ∷ events) ds h =
    receive_all-IsScoped scope events (next_devices scope action r ds)
      (next_devices-IsScoped scope action r ds h)
