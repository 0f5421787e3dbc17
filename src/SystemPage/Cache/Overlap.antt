-- ===== src/SystemPage/Cache/Overlap.antt =====
-- The cached records of a chart when two fetches are under way at the same time.
use bezel_custom.Prelude.{
  ℕ, ◌≤◌, ◌<◌, ◌≡◌, refl, Option, some, List, [], ◌∷◌, ◌++◌, arith, length, ◌∙◌, ap, subst,
}
use bezel_custom.SystemPage.{
  Sample, last_created, next_time, fill_from, add_empty_values, merge, trim,
}
use bezel_custom.SystemPage.Cache.{
  IsRising, IsAnswer, asked_from, last_time, merge_all, IsCached, append-IsRising,
  fill_from-IsRising, AreRecords-IsRising, answer-AreRecords, last_cached,
}

module _ {A : Type 0} where
  le-last_time : (p : ℕ) (rs : List (Sample A)) → IsRising 1 p rs → p ≤ last_time p rs
  le-last_time p [] h = omega arith
  le-last_time p (r ∷ rs) h = ground (arith, le-last_time (next_time p r.created) rs)

  last_time-append :
      (p : ℕ) (xs ys : List (Sample A)) → last_time p (xs ++ ys) ≡ last_time (last_time p xs) ys
  last_time-append p [] ys = refl
  last_time-append p (x ∷ xs) ys = last_time-append (next_time p x.created) xs ys

  untrimmed : (rs : List (Sample A)) → length rs ≤ 120 → trim rs ≡ rs
  unfolding trim
  untrimmed rs h = ground (arith, h)

  filled_after :
      (expected prev p t : ℕ) (stats : Option A) (rs : List (Sample A))
      → IsRising 1 p (fill_from expected prev (record { created = some t; stats = stats } ∷ rs))
      → (p < t) × IsRising 1 t (fill_from expected t rs)
  unfolding fill_from
  filled_after expected prev p t stats rs h = ground (arith, h)

  last_filled :
      (expected prev p t : ℕ) (stats : Option A) (rs : List (Sample A))
      → IsRising 1 p (fill_from expected prev (record { created = some t; stats = stats } ∷ rs))
      → t ≤ last_time p (fill_from expected prev (record { created = some t; stats = stats } ∷ rs))
  unfolding fill_from
  last_filled expected prev p t stats rs h =
      ground (arith, h, le-last_time t (fill_from expected t rs))

  -- What an answer makes of the cached records before they are cut.
  abbrev pub joined : ℕ → List (Sample A) → List (Sample A) → List (Sample A)
  joined expected cached answer = cached ++ add_empty_values cached answer expected

  joined_last :
      (expected t : ℕ) (stats : Option A) (rs cached : List (Sample A))
      → IsCached 1 cached
      → IsAnswer 1 (asked_from cached) (record { created = some t; stats = stats } ∷ rs)
      → t ≤ last_time 0 (joined expected cached (record { created = some t; stats = stats } ∷ rs))
  unfolding add_empty_values
  joined_last expected t stats rs cached (h, ends) k =
      let answer : List (Sample A) = record { created = some t; stats = stats } ∷ rs in
      let filled : List (Sample A) = fill_from expected (last_created cached) answer in
      let rising : IsRising 1 (last_created cached) filled =
        fill_from-IsRising 1 expected (last_created cached) (last_created cached) answer (
          AreRecords-IsRising 1 (last_created cached) answer
            (answer-AreRecords 1 cached answer (omega arith) k)) in
      rw (last_time-append 0 cached filled, last_cached cached ends)
        (last_filled expected (last_created cached) (last_created cached) t stats rs rising)

  joined_twice :
      (expected t : ℕ) (stats : Option A) (rs joined_once : List (Sample A))
      → t ≤ last_time 0 joined_once
      → IsRising 1 0 (joined expected joined_once (record { created = some t; stats = stats } ∷ rs))
      → ⊥
  unfolding add_empty_values
  joined_twice expected t stats rs once late h =
      let later : last_time 0 once < t =
        (filled_after expected (last_created once) (last_time 0 once) t stats rs (
          append-IsRising 1 0 once
            (fill_from expected (last_created once)
              (record { created = some t; stats = stats } ∷ rs))
            h)).0 in
      absurd (omega (arith, later, late))

  merged :
      (expected : ℕ) (cached : List (Sample A)) (r : Sample A) (rs : List (Sample A))
      → length (joined expected cached (r ∷ rs)) ≤ 120
      → merge cached (some (r ∷ rs)) expected ≡ joined expected cached (r ∷ rs)
  unfolding merge
  merged expected cached r rs h = untrimmed (joined expected cached (r ∷ rs)) h

  -- Two fetches that are sent for the same cached records and get the same records as their
  -- answers leave times that do not rise, since the second answer repeats the first, as long as
  -- the records are few enough not to be cut.
  pub overlap_repeats :
      (expected t : ℕ) (stats : Option A) (rs cached : List (Sample A))
      → IsCached 1 cached
      → IsAnswer 1 (asked_from cached) (record { created = some t; stats = stats } ∷ rs)
      → length (joined expected cached (record { created = some t; stats = stats } ∷ rs)) ≤ 120
      → length (
          joined expected
            (joined expected cached (record { created = some t; stats = stats } ∷ rs))
            (record { created = some t; stats = stats } ∷ rs))
        ≤ 120
      → ¬ IsRising 1 0 (
          merge_all expected cached (
            some (record { created = some t; stats = stats } ∷ rs)
            ∷ some (record { created = some t; stats = stats } ∷ rs)
            ∷ []))
  unfolding merge_all
  overlap_repeats expected t stats rs cached h k few fewer rising =
      let r : Sample A = record { created = some t; stats = stats } in
      let once : List (Sample A) = joined expected cached (r ∷ rs) in
      joined_twice expected t stats rs once (joined_last expected t stats rs cached h k) (
        subst (IsRising 1 0)
          (ap (λ c. merge c (some (r ∷ rs)) expected) (merged expected cached r rs few)
            ∙ merged expected once r rs fewer)
          rising)
