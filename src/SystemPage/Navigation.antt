-- ===== src/SystemPage/Navigation.antt =====
-- Which system the arrow keys lead to, and when time data is taken from the cache.
use bezel_custom.Prelude.{
  ℕ, ◌+◌, ◌-◌, ◌%◌, ◌<◌, ◌≡◌, ◌≢◌, refl, false, Option, none, some, List, [], ◌∷◌, arith, leb,
  eq_iff, if◌then◌else◌, length, get_elem?, String, zero, suc, ◌==◌,
}
use native.Mathlib.Nat.{mod-eq_of_lt, mod-eq-sub-mod}
use bezel_custom.SystemPage.{
  Key, previous, following, other, find_index, target_index, step_from, handle_key_up,
}

-- The index found is that of the first system with the id.
find_index_lem :
    (id : String) (systems : List String) (i : ℕ)
    → find_index id systems ≡ some i
    → (i < length systems) × (get_elem? systems i ≡ some id)
unfolding find_index
find_index_lem id [] i e = cc
find_index_lem id (s ∷ rest) zero e = ground (arith, eq_iff s id)
find_index_lem id (s ∷ rest) (suc i) e = ground (arith, find_index_lem id rest i)

following_index :
    (i count : ℕ) → i < count → (i + 1) % count ≡ (if leb count (i + 1) then 0 else i + 1)
following_index i count h = grind arith

previous_index :
    (i count : ℕ) → i < count → (i + count - 1) % count ≡ (if i == 0 then count - 1 else i - 1)
previous_index zero count h =
    let e : zero + count - 1 ≡ count - 1 = omega arith in rw e (mod-eq_of_lt (omega arith))
previous_index (suc i) count h =
    let e : suc i + count - 1 - count ≡ i = omega arith in
    let less : i % count ≡ i = mod-eq_of_lt (omega arith) in
    ground (arith, mod-eq-sub-mod {n = suc i + count - 1} {m = count} (omega arith), e, less)

-- An arrow key leads to another system of the list, and the opposite key leads back.
pub target_index_lem :
    (i count j : ℕ)
    → 1 < count
    → i < count
    → (target_index following i count ≡ some j
        → (j < count) × (j ≢ i) × (target_index previous j count ≡ some i))
      × (target_index previous i count ≡ some j
          → (j < count) × (j ≢ i) × (target_index following j count ≡ some i))
unfolding target_index
target_index_lem i count j many h = (
  λ e. (
    ground (arith, following_index i count h),
    ground (arith, following_index i count h),
    ground (arith, following_index i count h, previous_index j count),
  ),
  λ e. (
    ground (arith, previous_index i count h),
    ground (arith, previous_index i count h),
    ground (arith, previous_index i count h, following_index j count),
  ),
)

abbrev pub opposite : Key → Key
opposite previous = following
opposite following = previous
opposite other = other

step_from_lem :
    (o : Option ℕ) (key : Key) (count j : ℕ)
    → ((i : ℕ) → o ≡ some i → i < count)
    → step_from o key count ≡ some j
    → (i : ℕ) × (o ≡ some i)
      × (j < count)
      × (j ≢ i)
      × (step_from (some j) (opposite key) count ≡ some i)
unfolding step_from
step_from_lem none key count j below e = cc
step_from_lem (some i) other count j below e = ground arith
step_from_lem (some i) following count j below e =
    let (inside, moved, back) =
      (target_index_lem i count j (ground arith) (below i refl)).0 (ground arith) in
    (i, refl, inside, moved, ground (arith, back))
step_from_lem (some i) previous count j below e =
    let (inside, moved, back) =
      (target_index_lem i count j (ground arith) (below i refl)).1 (ground arith) in
    (i, refl, inside, moved, ground (arith, back))

-- If an arrow key leads from a system to an index, the index is one of the list and not that of
-- the system, and from the system that is found there, whatever its id, the opposite key leads
-- back.
pub handle_key_up_lem :
    (key : Key) (id id' : String) (systems : List String) (j : ℕ)
    → handle_key_up false key id systems ≡ some j
    → find_index id' systems ≡ some j
    → (i : ℕ) × (get_elem? systems i ≡ some id)
      × (j < length systems)
      × (j ≢ i)
      × (handle_key_up false (opposite key) id' systems ≡ some i)
unfolding handle_key_up
handle_key_up_lem key id id' systems j e found' =
    let (i, found, inside, moved, back) =
      step_from_lem (find_index id systems) key (length systems) j
        (λ k at_k. (find_index_lem id systems k at_k).0) e in
    (i, (find_index_lem id systems i found).1, inside, moved, rw found' back)
