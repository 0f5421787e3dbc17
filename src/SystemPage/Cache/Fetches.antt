-- ===== src/SystemPage/Cache/Fetches.antt =====
-- The cached records of a chart when fetches follow one another.
use bezel_custom.Prelude.{ℕ, ◌≤◌, ◌≡◌, refl, Option, none, some, List, [], ◌∷◌}
use bezel_custom.SystemPage.{Sample, merge}
use bezel_custom.SystemPage.Cache.{
  IsRising, AreAnswers, IsAnswer, IsLater, asked_from, last_time, last_cached, merge_all, IsCached,
  merge-IsCached, answer-IsLater,
}

module _ {A : Type 0} where
  merge-none : (cached : List (Sample A)) (expected : ℕ) → merge cached none expected ≡ cached
  unfolding merge
  merge-none cached expected = refl

  merge_all-IsCached :
      (gap expected : ℕ) (answers : List (Option (List (Sample A)))) (cached : List (Sample A))
      → gap ≤ 1
      → IsCached gap cached
      → AreAnswers gap expected cached answers
      → IsCached gap (merge_all expected cached answers)
  unfolding merge_all
  merge_all-IsCached gap expected [] cached near h k = h
  merge_all-IsCached gap expected (none ∷ answers) cached near h k =
      rw (merge-none cached expected) (merge_all-IsCached gap expected answers cached near h k)
  merge_all-IsCached gap expected (some answer ∷ answers) cached near h (k, ks) =
      merge_all-IsCached gap expected answers (merge cached (some answer) expected) near
        (merge-IsCached gap cached answer expected near h k) ks

  -- Let a distance be 0, or 1 where no two times of the server are the same. Let the times of the
  -- records that are cached at first rise by the distance, the last of them not being a marker,
  -- and let each answer be to a request that was sent when the answers before it were cached: it
  -- starts no earlier than the second that was asked for, and its own times rise by the distance,
  -- as the sort of the request gives for 0. Then the times of all cached records rise by the
  -- distance, over all answers and their cuts; and a next answer to the request of that cache has
  -- only records after the last cached one, so that no fetch repeats a record of another.
  pub merge_all-IsRising :
      (gap expected : ℕ) (answers : List (Option (List (Sample A)))) (cached rs : List (Sample A))
      → gap ≤ 1
      → IsCached gap cached
      → AreAnswers gap expected cached answers
      → IsAnswer gap (asked_from (merge_all expected cached answers)) rs
      → IsRising gap 0 (merge_all expected cached answers)
        × IsLater (last_time 0 (merge_all expected cached answers)) rs
  merge_all-IsRising gap expected answers cached rs near h k next =
      let (rising, ends) = merge_all-IsCached gap expected answers cached near h k in
      (
        rising,
        rw (last_cached (merge_all expected cached answers) ends)
            (answer-IsLater gap (merge_all expected cached answers) rs next),
      )
