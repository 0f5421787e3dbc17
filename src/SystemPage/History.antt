-- ===== src/SystemPage/History.antt =====
-- The cached history of a chart: what a fetch leaves in it.
use bezel_custom.Prelude.{
  ℕ, zero, suc, ◌-◌, ◌≤◌, ◌<◌, ◌≡◌, refl, ap, some, List, [], ◌∷◌, ◌++◌, ◌⊎◌, inl, inr, arith, ltb,
  length, take, drop, length-drop, Bool-cases, tests,
}
use bezel_custom.SystemPage.{Sample, add_empty_values, trim, merge}

module _ {A : Type 0} where
  -- A list up to 120 records stays as it is, and of a longer one the last 100 stay.
  abbrev pub IsCut : List (Sample A) → List (Sample A) → Type 0
  IsCut rs kept =
      ((length rs ≤ 120) × (kept ≡ rs))
      ⊎ ((120 < length rs)
          × ((front : List (Sample A)) × ((rs ≡ front ++ kept) × (length kept ≡ 100))))

  take-drop : (n : ℕ) (rs : List (Sample A)) → rs ≡ take n rs ++ drop n rs
  take-drop zero rs = refl
  take-drop (suc n) [] = refl
  take-drop (suc n) (r ∷ rs) = ap (λ x. r ∷ x) (take-drop n rs)

  trim-IsCut : (rs : List (Sample A)) → IsCut rs (trim rs)
  unfolding trim
  trim-IsCut rs = elim (Bool-cases (ltb 120 (length rs))) [
    | inl long ↦ rw long (
        inr (
          omega (tests, long),
          (
            take (length rs - 100) rs,
            (take-drop (length rs - 100) rs, omega (tests, long, length-drop (length rs - 100) rs)),
          ),
        ))
    | inr short ↦ rw short (inl (ground arith, refl))
  ]

  -- Adding fetched records to the cached ones gives the joined list, as it is if it has at most
  -- 120 records, and its last 100 records if it has more.
  pub merge_lem :
      (cached : List (Sample A)) (r : Sample A) (rs : List (Sample A)) (expected : ℕ)
      → IsCut
          (cached ++ add_empty_values cached (r ∷ rs) expected)
          (merge cached (some (r ∷ rs)) expected)
  unfolding merge
  merge_lem cached r rs expected = trim-IsCut (cached ++ add_empty_values cached (r ∷ rs) expected)
