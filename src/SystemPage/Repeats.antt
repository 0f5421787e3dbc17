-- ===== src/SystemPage/Repeats.antt =====
-- A second pass of addEmptyValues over the same records marks every gap once more, and the realtime
-- window is passed through it at each message.
use bezel_custom.Prelude.{
  ℕ, ◌+◌, ◌*◌, ◌≤◌, ◌≡◌, refl, Option, none, some, List, [], ◌∷◌, ◌++◌, arith, ◌-◌, length,
}
use bezel_custom.SystemPage.{
  Sample, gap_before, next_time, fill_from, last_created, add_empty_values, realtime, take_last,
}

module _ {A : Type 0} where
  -- how many records have no time
  unfoldable pub untimed : List (Sample A) → ℕ
  untimed [] = 0
  untimed (r ∷ rs) = elim r.created [ none ↦ untimed rs + 1 | some _ ↦ untimed rs ]

  -- how many gaps a pass from a time finds
  unfoldable pub gaps : ℕ → ℕ → List (Sample A) → ℕ
  gaps expected prev [] = 0
  gaps expected prev (r ∷ rs) =
      length (gap_before {A = A} expected prev r.created)
      + gaps expected (next_time prev r.created) rs

  untimed-fill_from :
      (expected prev : ℕ) (rs : List (Sample A))
      → untimed (fill_from expected prev rs) ≡ untimed rs + gaps expected prev rs
  unfolding fill_from untimed gaps
  untimed-fill_from expected prev [] = refl
  untimed-fill_from expected prev (r ∷ rs) =
      ground (arith, untimed-fill_from expected (next_time prev r.created) rs)

  -- A marker does not hide the gap that it stands for.
  gaps-fill_from :
      (expected prev : ℕ) (rs : List (Sample A))
      → gaps expected prev (fill_from expected prev rs) ≡ gaps expected prev rs
  unfolding fill_from gaps
  gaps-fill_from expected prev [] = refl
  gaps-fill_from expected prev (r ∷ rs) =
      ground (arith, gaps-fill_from expected (next_time prev r.created) rs)

  -- Passing records through the adding of empty values twice adds twice as many markers as there
  -- are gaps.
  pub untimed-second_pass :
      (prev_records new_records : List (Sample A)) (expected : ℕ)
      → untimed (
          add_empty_values prev_records
            (add_empty_values prev_records new_records expected)
            expected)
        ≡ untimed new_records + 2 * gaps expected (last_created prev_records) new_records
  unfolding add_empty_values
  untimed-second_pass prev_records new_records expected =
      let p : ℕ = last_created prev_records in
      omega (
        arith,
        untimed-fill_from expected p (fill_from expected p new_records),
        untimed-fill_from expected p new_records,
        gaps-fill_from expected p new_records,
      )

  -- The first record with a time is no later than `p`.
  abbrev pub StartsBy : ℕ → List (Sample A) → Type 0
  StartsBy p [] = Unit
  StartsBy p (r ∷ rs) = elim r.created [ none ↦ StartsBy p rs | some t ↦ t ≤ p ]

  gaps-StartsBy :
      (expected p : ℕ) (rs : List (Sample A))
      → StartsBy p rs
      → gaps expected p rs ≡ gaps expected 0 rs
  unfolding gaps
  gaps-StartsBy expected p [] h = refl
  gaps-StartsBy expected p (r ∷ rs) h = ground (arith, gaps-StartsBy expected p rs)

  fill_from-StartsBy :
      (expected p : ℕ) (rs : List (Sample A)) → StartsBy p rs → StartsBy p (fill_from expected p rs)
  unfolding fill_from
  fill_from-StartsBy expected p [] h = tt
  fill_from-StartsBy expected p (r ∷ rs) h = ground (arith, fill_from-StartsBy expected p rs)

  StartsBy-append : (p : ℕ) (rs more : List (Sample A)) → StartsBy p (rs ++ more) → StartsBy p rs
  StartsBy-append p [] more h = tt
  StartsBy-append p (r ∷ rs) more h = ground (arith, StartsBy-append p rs more)

  gaps-append-le :
      (expected p : ℕ) (rs more : List (Sample A))
      → gaps expected p rs ≤ gaps expected p (rs ++ more)
  unfolding gaps
  gaps-append-le expected p [] more = omega arith
  gaps-append-le expected p (r ∷ rs) more =
      omega (arith, gaps-append-le expected (next_time p r.created) rs more)

  untimed-append-le : (rs more : List (Sample A)) → untimed rs ≤ untimed (rs ++ more)
  unfolding untimed
  untimed-append-le [] more = omega arith
  untimed-append-le (r ∷ rs) more = ground (arith, untimed-append-le rs more)

  take_last-all : (n : ℕ) (rs : List (Sample A)) → length rs ≤ n → take_last n rs ≡ rs
  take_last-all n rs h = let e : length rs - n ≡ 0 = omega arith in rw e refl

  abbrev pub arrival : ℕ → Option A → Sample A
  arrival now stats = record { created = some now; stats = stats }

  -- A realtime window of at most 59 records whose first record with a time is no later than its
  -- last one gains, with every message, a marker for each gap that it has, beside the markers that
  -- are there, and the gaps remain gaps.
  pub realtime_repeats_gaps :
      (window : List (Sample A)) (now : ℕ) (stats : Option A)
      → length window ≤ 59
      → StartsBy (last_created window) (window ++ arrival now stats ∷ [])
      → (untimed window + gaps 1000 0 window ≤ untimed (realtime window now stats))
        × (gaps 1000 0 window ≤ gaps 1000 0 (realtime window now stats))
  unfolding realtime add_empty_values
  realtime_repeats_gaps window now stats fits starts =
      let p : ℕ = last_created window in
      let next : List (Sample A) = window ++ arrival now stats ∷ [] in
      let same : gaps 1000 p window ≡ gaps 1000 0 window =
        gaps-StartsBy 1000 p window (StartsBy-append p window (arrival now stats ∷ []) starts) in
      rw (take_last-all 59 window fits) (
        omega (
          arith,
          untimed-fill_from 1000 p next,
          gaps-append-le 1000 p window (arrival now stats ∷ []),
          untimed-append-le window (arrival now stats ∷ []),
          same,
          gaps-StartsBy 1000 p (fill_from 1000 p next) (fill_from-StartsBy 1000 p next starts),
          gaps-fill_from 1000 p next,
        ))
