-- ===== src/SystemPage/Gaps.antt =====
-- addEmptyValues: which records it keeps, where it marks gaps, and what a second pass does.
use bezel_custom.Prelude.{
  ℕ, ◌+◌, ◌*◌, ◌≤◌, ◌≡◌, refl, Bool, true, false, Option, none, some, List, [], ◌∷◌, ◌++◌, ◌⊎◌,
  arith, keep,
}
use bezel_custom.SystemPage.{
  Sample, gap_before, next_time, fill_from, last_created, add_empty_values,
}

module _ {A : Type 0} where
  abbrev pub is_timed : Sample A → Bool
  is_timed r = elim r.created [ none ↦ false | some _ ↦ true ]

  keep-gap :
      (expected prev : ℕ) (o : Option ℕ) (rest : List (Sample A))
      → keep is_timed (gap_before expected prev o ++ rest) ≡ keep is_timed rest
  keep-gap expected prev none rest = refl
  keep-gap expected prev (some t) rest = ground arith

  keep-fill_from :
      (expected prev : ℕ) (rs : List (Sample A))
      → keep is_timed (fill_from expected prev rs) ≡ keep is_timed rs
  unfolding fill_from
  keep-fill_from expected prev [] = refl
  keep-fill_from expected prev (r ∷ rs) = ground (
    arith,
    keep-gap expected prev r.created (r ∷ fill_from expected (next_time prev r.created) rs),
    keep-fill_from expected (next_time prev r.created) rs,
  )

  -- Between two records with times that are too far apart stands one with no time. The number is the
  -- time of the record before, 0 if that is a marker or there is none.
  abbrev pub IsMarked : ℕ → ℕ → List (Sample A) → Type 0
  IsMarked expected prev [] = Unit
  IsMarked expected prev (r ∷ rs) = elim r.created [
    | none ↦ IsMarked expected 0 rs
    | some t ↦ ((prev ≡ 0) ⊎ (2 * t ≤ 2 * prev + 3 * expected)) × IsMarked expected t rs
  ]

  IsMarked-zero :
      (expected prev : ℕ) (rs : List (Sample A))
      → IsMarked expected prev rs
      → IsMarked expected 0 rs
  IsMarked-zero expected prev [] h = tt
  IsMarked-zero expected prev (r ∷ rs) h = ground arith

  fill_from-IsMarked :
      (expected prev : ℕ) (rs : List (Sample A))
      → IsMarked expected prev (fill_from expected prev rs)
  unfolding fill_from
  fill_from-IsMarked expected prev [] = tt
  fill_from-IsMarked expected prev (r ∷ rs) = ground (
    arith,
    fill_from-IsMarked expected (next_time prev r.created) rs,
    IsMarked-zero expected (next_time prev r.created)
        (fill_from expected (next_time prev r.created) rs),
  )

  -- Adding empty values adds markers only: the records with a time stay as they were, in their
  -- order. Afterwards no record with a time follows another, or the last of the records before, by
  -- more than one and a half intervals without a marker between them.
  pub add_empty_values_lem :
      (prev_records new_records : List (Sample A)) (expected : ℕ)
      → (keep is_timed (add_empty_values prev_records new_records expected)
          ≡ keep is_timed new_records)
        × IsMarked expected
            (last_created prev_records)
            (add_empty_values prev_records new_records expected)
  unfolding add_empty_values
  add_empty_values_lem prev_records new_records expected = (
    keep-fill_from expected (last_created prev_records) new_records,
    fill_from-IsMarked expected (last_created prev_records) new_records,
  )
