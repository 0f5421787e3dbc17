-- ===== src/Tables/Merge.antt =====
-- Which rows a table has after an answer.
use bezel_custom.Prelude.{
  ℕ, max, ◌≡◌, refl, String, Bool, true, false, not, Option, none, some, List, [], ◌∷◌, ◌++◌,
  str_eq, eq_iff, ◌&&◌, ◌||◌, if◌then◌else◌, keep, arith, All, All-imp, Bool-cases, inl, inr, subst,
  sym, ◌∙◌,
}
use bezel_custom.Tables.{
  Row, is_near, is_recent, last_updated, has_key, merge_at, receive_containers, receive_services,
}

abbrev pub first_some : {A : Type 0} → Option A → Option A → Option A
first_some none o = o
first_some (some a) o = some a

module _ (key : Row → String) where
  -- The first row with a key.
  abbrev pub find_key : String → List Row → Option Row
  find_key k [] = none
  find_key k (r ∷ rs) = let rest = find_key k rs in if str_eq (key r) k then some r else rest

  find_key-append :
      (k : String) (xs ys : List Row)
      → find_key k (xs ++ ys) ≡ first_some (find_key k xs) (find_key k ys)
  find_key-append k [] ys = refl
  find_key-append k (x ∷ xs) ys = ground (arith, find_key-append k xs ys)

  find_key-has_key : (k : String) (rs : List Row) → has_key key k rs ≡ false → find_key k rs ≡ none
  unfolding has_key
  find_key-has_key k [] h = refl
  find_key-has_key k (r ∷ rs) h = ground (arith, find_key-has_key k rs)

  has_key-some :
      (k : String) (rs : List Row) → has_key key k rs ≡ true → (r : Row) × (find_key k rs ≡ some r)
  unfolding has_key
  has_key-some k [] h = cc
  has_key-some k (r ∷ rs) h = elim (Bool-cases (str_eq (key r) k)) [
    | inl same ↦ (r, rw same refl)
    | inr other ↦ rw other (has_key-some k rs (ground (arith, other)))
  ]

  find_key-other :
      (k : String) (fresh current : List Row) (p : Row → Bool)
      → has_key key k fresh ≡ false
      → find_key k (keep (λ r. not (has_key key (key r) fresh) && p r) current)
        ≡ find_key k (keep p current)
  find_key-other k fresh [] p h = refl
  find_key-other k fresh (x ∷ xs) p h = elim (Bool-cases (str_eq (key x) k)) [
    | inl same ↦
        let absent : has_key key (key x) fresh ≡ false =
          subst (λ j. has_key key j fresh ≡ false) (sym ((eq_iff (key x) k).0 same)) h in
        ground (arith, find_key-other k fresh xs p h, absent, same)
    | inr other ↦ ground (arith, find_key-other k fresh xs p h, other)
  ]

  find_key-merge_at :
      (k : String) (last : ℕ) (items current : List Row)
      → find_key k (merge_at key last items current)
        ≡ first_some
            (find_key k (keep (is_near last) items))
            (find_key k (keep (is_recent last) current))
  unfolding merge_at
  find_key-merge_at k last items current =
      let fresh : List Row = keep (is_near last) items in
      let old : List Row =
        keep (λ r. not (has_key key (key r) fresh) && is_recent last r) current in
      find_key-append k fresh old ∙ elim (Bool-cases (has_key key k fresh)) [
        | inl there ↦ let (r, e) = has_key-some k fresh there in rw e refl
        | inr absent ↦
            rw (find_key-has_key k fresh absent)
              (find_key-other k fresh current (is_recent last) absent)
      ]

  -- No two rows have one key.
  abbrev pub IsUnique : List Row → Type 0
  IsUnique [] = Unit
  IsUnique (r ∷ rs) = (has_key key (key r) rs ≡ false) × IsUnique rs

  has_key-append :
      (k : String) (xs ys : List Row)
      → has_key key k (xs ++ ys) ≡ (has_key key k xs || has_key key k ys)
  unfolding has_key
  has_key-append k [] ys = refl
  has_key-append k (x ∷ xs) ys = ground (arith, has_key-append k xs ys)

  has_key-keep :
      (k : String) (p : Row → Bool) (xs : List Row)
      → has_key key k xs ≡ false
      → has_key key k (keep p xs) ≡ false
  unfolding has_key
  has_key-keep k p [] h = refl
  has_key-keep k p (x ∷ xs) h = ground (arith, has_key-keep k p xs)

  keep-IsUnique : (p : Row → Bool) (xs : List Row) → IsUnique xs → IsUnique (keep p xs)
  keep-IsUnique p [] h = tt
  keep-IsUnique p (x ∷ xs) h = elim (Bool-cases (p x)) [
    | inl kept ↦ rw kept (has_key-keep (key x) p xs h.0, keep-IsUnique p xs h.1)
    | inr left ↦ rw left (keep-IsUnique p xs h.1)
  ]

  -- A row that is there does not come back from the rows that have no key of it.
  has_key-others :
      (k : String) (fresh current : List Row) (p : Row → Bool)
      → has_key key k fresh ≡ true
      → has_key key k (keep (λ r. not (has_key key (key r) fresh) && p r) current) ≡ false
  unfolding has_key
  has_key-others k fresh [] p h = refl
  has_key-others k fresh (x ∷ xs) p h = elim (Bool-cases (str_eq (key x) k)) [
    | inl same ↦
        let there : has_key key (key x) fresh ≡ true =
          subst (λ j. has_key key j fresh ≡ true) (sym ((eq_iff (key x) k).0 same)) h in
        ground (arith, has_key-others k fresh xs p h, there, same)
    | inr other ↦ ground (arith, has_key-others k fresh xs p h, other)
  ]

  -- The rows of the first list all have keys in a second one that no row of the third has.
  append-IsUnique :
      (xs ys : List Row)
      → IsUnique xs
      → IsUnique ys
      → All (λ x. has_key key (key x) ys ≡ false) xs
      → IsUnique (xs ++ ys)
  append-IsUnique [] ys hx hy apart = hy
  append-IsUnique (x ∷ xs) ys hx hy apart = (
    ground (arith, has_key-append (key x) xs ys, hx.0, apart.0),
    append-IsUnique xs ys hx.1 hy apart.1,
  )

  has_own_key : (xs : List Row) → All (λ x. has_key key (key x) xs ≡ true) xs
  unfolding has_key
  has_own_key [] = tt
  has_own_key (x ∷ xs) = (
    ground (arith, eq_iff (key x) (key x)),
    All-imp (λ y. has_key key (key y) xs ≡ true) (λ y. has_key key (key y) (x ∷ xs) ≡ true) xs
        (λ y h. ground (arith, h)) (has_own_key xs),
  )

  merge_at-IsUnique :
      (last : ℕ) (items current : List Row)
      → IsUnique items
      → IsUnique current
      → IsUnique (merge_at key last items current)
  unfolding merge_at
  merge_at-IsUnique last items current hi hc =
      let fresh : List Row = keep (is_near last) items in
      let old : List Row =
        keep (λ r. not (has_key key (key r) fresh) && is_recent last r) current in
      append-IsUnique fresh old (keep-IsUnique (is_near last) items hi)
        (keep-IsUnique (λ r. not (has_key key (key r) fresh) && is_recent last r) current hc)
        (All-imp (λ x. has_key key (key x) fresh ≡ true) (λ x. has_key key (key x) old ≡ false)
          fresh (λ x there. has_key-others (key x) fresh current (is_recent last) there)
          (has_own_key fresh))

-- The time that the rows of an answer are measured against.
abbrev pub last_of : Row → List Row → ℕ
last_of r rs = max r.updated (last_updated (r ∷ rs))

-- After an answer with rows, the row of a key, an id for containers and a name for services, is
-- the answer's one if there is one less than 70 seconds from the last update, and if not the row
-- from before if that is less than 70 seconds older than the update; with neither there is none.
pub find_key-receive :
    (system : Option String) (k : String) (r : Row) (rs current : List Row)
    → (find_key (λ x. x.id) k (receive_containers system (r ∷ rs) current)
        ≡ first_some
            (find_key (λ x. x.id) k (keep (is_near (last_of r rs)) (r ∷ rs)))
            (find_key (λ x. x.id) k (keep (is_recent (last_of r rs)) current)))
      × (find_key (λ x. x.name) k (receive_services (r ∷ rs) current)
          ≡ first_some
              (find_key (λ x. x.name) k (keep (is_near (last_of r rs)) (r ∷ rs)))
              (find_key (λ x. x.name) k (keep (is_recent (last_of r rs)) current)))
unfolding receive_containers receive_services
find_key-receive system k r rs current = (
  find_key-merge_at (λ x. x.id) k (last_of r rs) (r ∷ rs) current,
  find_key-merge_at (λ x. x.name) k (last_of r rs) (r ∷ rs) current,
)

receive_containers-IsUnique :
    (system : Option String) (items current : List Row)
    → IsUnique (λ x. x.id) items
    → IsUnique (λ x. x.id) current
    → IsUnique (λ x. x.id) (receive_containers system items current)
unfolding receive_containers
receive_containers-IsUnique none [] current hi hc = tt
receive_containers-IsUnique (some system) [] current hi hc =
    keep-IsUnique (λ x. x.id) (λ r. not (str_eq r.system system)) current hc
receive_containers-IsUnique system (r ∷ rs) current hi hc =
    merge_at-IsUnique (λ x. x.id) (last_of r rs) (r ∷ rs) current hi hc

-- If no two rows of an answer and no two rows of the table have one key, the same holds of the
-- table after the answer, for containers by id and for services by name, also when the answer is
-- empty.
pub receive-IsUnique :
    (system : Option String) (items current : List Row)
    → IsUnique (λ x. x.id) items
    → IsUnique (λ x. x.id) current
    → IsUnique (λ x. x.name) items
    → IsUnique (λ x. x.name) current
    → IsUnique (λ x. x.id) (receive_containers system items current)
      × IsUnique (λ x. x.name) (receive_services items current)
unfolding receive_services
receive-IsUnique system [] current ii ic ni nc =
    (receive_containers-IsUnique system [] current ii ic, nc)
receive-IsUnique system (r ∷ rs) current ii ic ni nc = (
  receive_containers-IsUnique system (r ∷ rs) current ii ic,
  merge_at-IsUnique (λ x. x.name) (last_of r rs) (r ∷ rs) current ni nc,
)
