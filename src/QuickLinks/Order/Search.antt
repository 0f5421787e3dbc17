-- ===== src/QuickLinks/Order/Search.antt =====
-- Where the search for the next link of a category stops.
use bezel_custom.Prelude.{
  ℕ, zero, suc, ◌+◌, ◌≤◌, ◌<◌, ◌≡◌, refl, String, true, false, Option, none, some, List, ◌∷◌, arith,
  str_eq, get_elem?, sym, subst, Bool-cases, inl, inr, ◌⊎◌, ltb, ltb→lt,
}
use bezel_custom.QuickLinks.{QuickLink, category_of, has_category, find_before, find_after}

lt_suc-cases : (k n : ℕ) → k < suc n → (k ≡ n) ⊎ (k < n)
lt_suc-cases k n h = elim (Bool-cases (ltb k n)) [
  | inl below ↦ inr (ltb→lt k n below)
  | inr not_below ↦ inl (ground (arith, not_below, h))
]

module _ (cat : String) where
  -- The link at an index is of the category.
  abbrev pub Stands : List QuickLink → ℕ → Type 0
  Stands links k = has_category cat (get_elem? links k) ≡ true

  -- No link at an index from one up to another is.
  abbrev pub Clear : List QuickLink → ℕ → ℕ → Type 0
  Clear links lo hi = (k : ℕ) → lo ≤ k → k < hi → has_category cat (get_elem? links k) ≡ false

  Clear-last :
      (links : List QuickLink) (lo hi : ℕ)
      → Clear links lo hi
      → has_category cat (get_elem? links hi) ≡ false
      → Clear links lo (suc hi)
  Clear-last links lo hi clear other k ge lt = elim (lt_suc-cases k hi lt) [
    | inl same ↦ subst (λ m. has_category cat (get_elem? links m) ≡ false) (sym same) other
    | inr below ↦ clear k ge below
  ]

  pub Clear-within :
      (links : List QuickLink) (lo hi lo' hi' : ℕ)
      → lo ≤ lo'
      → hi' ≤ hi
      → Clear links lo hi
      → Clear links lo' hi'
  Clear-within links lo hi lo' hi' le le' clear k ge lt = clear k (omega arith) (omega arith)

  Clear-first :
      (links : List QuickLink) (lo hi : ℕ)
      → has_category cat (get_elem? links lo) ≡ false
      → Clear links (suc lo) hi
      → Clear links lo hi
  Clear-first links lo hi other clear k ge lt = elim (lt_suc-cases lo k (omega (arith, ge))) [
    | inl same ↦ subst (λ m. has_category cat (get_elem? links m) ≡ false) same other
    | inr below ↦ clear k (omega (arith, below)) lt
  ]

  Clear-empty : (links : List QuickLink) (lo hi : ℕ) → hi ≤ lo → Clear links lo hi
  Clear-empty links lo hi le k ge lt = ground (arith, le, ge, lt)

  pub find_before_lem :
      (links : List QuickLink) (i j : ℕ)
      → find_before cat links i ≡ some j
      → (j < i) × Stands links j × Clear links (suc j) i
  unfolding find_before
  find_before_lem links zero j e = cc
  find_before_lem links (suc i) j e = elim (Bool-cases (has_category cat (get_elem? links i))) [
    | inl here ↦
        let same : i ≡ j = ground (arith, here, e) in
        (
          omega (arith, same),
          subst (Stands links) same here,
          Clear-empty links (suc j) (suc i) (omega (arith, same)),
        )
    | inr other ↦
        let (lt, stands, clear) = find_before_lem links i j (ground (arith, other, e)) in
        (omega (arith, lt), stands, Clear-last links (suc j) i clear other)
  ]

  pub find_before-none :
      (links : List QuickLink) (i : ℕ) → find_before cat links i ≡ none → Clear links 0 i
  unfolding find_before
  find_before-none links zero e = Clear-empty links 0 0 (omega arith)
  find_before-none links (suc i) e = elim (Bool-cases (has_category cat (get_elem? links i))) [
    | inl here ↦
        Clear-first links 0 (suc i) (ground (arith, here, e))
          (Clear-empty links 1 (suc i) (ground (arith, here, e)))
    | inr other ↦ Clear-last links 0 i (find_before-none links i (ground (arith, other, e))) other
  ]

  pub find_after_lem :
      (links : List QuickLink) (rounds i j : ℕ)
      → find_after cat links rounds i ≡ some j
      → (i ≤ j) × Stands links j × Clear links i j
  unfolding find_after
  find_after_lem links zero i j e = cc
  find_after_lem links (suc rounds) i j e =
      elim (Bool-cases (has_category cat (get_elem? links i))) [
        | inl here ↦
            let same : i ≡ j = ground (arith, here, e) in
            (
              omega (arith, same),
              subst (Stands links) same here,
              Clear-empty links i j (omega (arith, same)),
            )
        | inr other ↦
            let (le, stands, clear) =
              find_after_lem links rounds (i + 1) j (ground (arith, other, e)) in
            (
              omega (arith, le),
              stands,
              Clear-first links i j other
                  (Clear-within links (i + 1) j (suc i) j (omega arith) (omega arith) clear),
            )
      ]

  pub find_after-none :
      (links : List QuickLink) (rounds i : ℕ)
      → find_after cat links rounds i ≡ none
      → Clear links i (i + rounds)
  unfolding find_after
  find_after-none links zero i e = Clear-empty links i (i + 0) (omega arith)
  find_after-none links (suc rounds) i e =
      elim (Bool-cases (has_category cat (get_elem? links i))) [
        | inl here ↦ Clear-empty links i (i + suc rounds) (ground (arith, here, e))
        | inr other ↦ Clear-first links i (i + suc rounds) other (
            Clear-within links (i + 1) (i + 1 + rounds) (suc i) (i + suc rounds) (omega arith)
              (omega arith) (find_after-none links rounds (i + 1) (ground (arith, other, e))))
      ]

  pub Clear-tail :
      (x : QuickLink) (xs : List QuickLink) (lo lo' hi : ℕ)
      → lo ≤ suc lo'
      → Clear (x ∷ xs) lo (suc hi)
      → Clear xs lo' hi
  Clear-tail x xs lo lo' hi le clear k ge lt = clear (suc k) (omega arith) (omega (arith, lt))

  pub stands-link :
      (o : Option QuickLink)
      → has_category cat o ≡ true
      → (b : QuickLink) × (o ≡ some b) × (str_eq (category_of b) cat ≡ true)
  stands-link none h = cc
  stands-link (some b) h = (b, refl, h)
