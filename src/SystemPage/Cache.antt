-- ===== src/SystemPage/Cache.antt =====
-- The cached records of a chart in internal/site/src/components/routes/system.tsx, through fetches
-- one after another and at the same time.
pub mod Fetches
pub mod Overlap
mod Tests
use mathlib.Core.List.{append_assoc}
use bezel_custom.Prelude.{
  ℕ, ◌+◌, ◌-◌, ◌/◌, ◌≤◌, ◌<◌, ◌≡◌, refl, sym, ap, Bool, true, false, Option, none, some, List, [],
  ◌∷◌, ◌++◌, arith, length, drop, ltb, ◌==◌, if◌then◌else◌, Bool-cases, inl, inr, subst, ◌∙◌, suc,
  zero,
}
use bezel_custom.SystemPage.{
  Sample, last_created, next_time, gap_before, fill_from, add_empty_values, merge, trim, take_last,
  marker,
}

abbrev pub IsFrom : Option ℕ → ℕ → Type 0
IsFrom none t = 0 < t
IsFrom (some second) t = second ≤ t / 1000

module _ {A : Type 0} where
  -- The first second that getStats asks the server for, none without cached records. The server
  -- compares seconds, since the text of the bound has no fraction.
  pub asked_from : List (Sample A) → Option ℕ
  unfolding last_created
  asked_from cached =
      if last_created cached == 0 then none else some ((last_created cached + 1000) / 1000)

  -- The time of the last record that has one, the given one if there is none.
  abbrev pub last_time : ℕ → List (Sample A) → ℕ
  last_time p [] = p
  last_time p (r ∷ rs) = last_time (next_time p r.created) rs

  pub merge_all : ℕ → List (Sample A) → List (Option (List (Sample A))) → List (Sample A)
  merge_all expected cached [] = cached
  merge_all expected cached (answer ∷ answers) =
      merge_all expected (merge cached answer expected) answers

  -- The last record has a time, if there is one.
  abbrev pub EndsTimed : List (Sample A) → Type 0
  EndsTimed [] = Unit
  EndsTimed (r ∷ []) = elim r.created [ none ↦ ⊥ | some _ ↦ Unit ]
  EndsTimed (_ ∷ r ∷ rs) = EndsTimed (r ∷ rs)

  last_time_lem :
      (p : ℕ) (r : Sample A) (rs : List (Sample A))
      → EndsTimed (r ∷ rs)
      → last_time p (r ∷ rs) ≡ last_created (r ∷ rs)
  unfolding last_created
  last_time_lem p r [] h = ground arith
  last_time_lem p r (q ∷ rs) h = last_time_lem (next_time p r.created) q rs h

  EndsTimed-append :
      (xs : List (Sample A)) (r : Sample A) (rs : List (Sample A))
      → EndsTimed (r ∷ rs)
      → EndsTimed (xs ++ r ∷ rs)
  EndsTimed-append [] r rs h = h
  EndsTimed-append (x ∷ []) r rs h = h
  EndsTimed-append (x ∷ y ∷ xs) r rs h = EndsTimed-append (y ∷ xs) r rs h

  EndsTimed-tail : (r : Sample A) (rs : List (Sample A)) → EndsTimed (r ∷ rs) → EndsTimed rs
  EndsTimed-tail r [] h = tt
  EndsTimed-tail r (q ∷ rs) h = h

  drop-EndsTimed : (n : ℕ) (rs : List (Sample A)) → EndsTimed rs → EndsTimed (drop n rs)
  drop-EndsTimed zero rs h = h
  drop-EndsTimed (suc n) [] h = tt
  drop-EndsTimed (suc n) (r ∷ rs) h = drop-EndsTimed n rs (EndsTimed-tail r rs h)

  pub last_cached :
      (cached : List (Sample A)) → EndsTimed cached → last_time 0 cached ≡ last_created cached
  unfolding last_created
  last_cached [] h = refl
  last_cached (r ∷ rs) h = last_time_lem 0 r rs h

  -- All records of a list have times after the given one.
  abbrev pub IsLater : ℕ → List (Sample A) → Type 0
  IsLater p [] = Unit
  IsLater p (r ∷ rs) = elim r.created [ none ↦ ⊥ | some t ↦ p < t ] × IsLater p rs

module _ {A : Type 0} (gap : ℕ) where
  -- The times rise by some distance or more, from the given one; markers do not count.
  abbrev pub IsRising : ℕ → List (Sample A) → Type 0
  IsRising p [] = Unit
  IsRising p (r ∷ rs) = elim r.created [
    | none ↦ IsRising p rs
    | some t ↦ (p + gap ≤ t) × IsRising t rs
  ]

  -- What the server answers, in the order that is asked for: each record has a time. The sort of the
  -- request gives distance 0, and distance 1 that no two times are the same.
  abbrev pub AreRecords : ℕ → List (Sample A) → Type 0
  AreRecords p [] = Unit
  AreRecords p (r ∷ rs) = elim r.created [ none ↦ ⊥ | some t ↦ (p + gap ≤ t) × AreRecords t rs ]

  abbrev pub IsAnswer : Option ℕ → List (Sample A) → Type 0
  IsAnswer bound [] = Unit
  IsAnswer bound (r ∷ rs) = elim r.created [ none ↦ ⊥ | some t ↦ IsFrom bound t × AreRecords t rs ]

  -- Each answer is to a request that was sent when the answers before it were cached.
  abbrev pub AreAnswers : ℕ → List (Sample A) → List (Option (List (Sample A))) → Type 0
  AreAnswers expected cached [] = Unit
  AreAnswers expected cached (none ∷ answers) = AreAnswers expected cached answers
  AreAnswers expected cached (some rs ∷ answers) =
      IsAnswer (asked_from cached) rs
      × AreAnswers expected (merge cached (some rs) expected) answers

  IsRising-weaken : (p q : ℕ) (rs : List (Sample A)) → q ≤ p → IsRising p rs → IsRising q rs
  IsRising-weaken p q [] le h = tt
  IsRising-weaken p q (r ∷ rs) le h = ground (arith, IsRising-weaken p q rs)

  IsRising-append :
      (p : ℕ) (xs ys : List (Sample A))
      → IsRising p xs
      → IsRising (last_time p xs) ys
      → IsRising p (xs ++ ys)
  IsRising-append p [] ys h k = k
  IsRising-append p (x ∷ xs) ys h k = ground (arith, IsRising-append (next_time p x.created) xs ys)

  pub append-IsRising :
      (p : ℕ) (xs ys : List (Sample A)) → IsRising p (xs ++ ys) → IsRising (last_time p xs) ys
  append-IsRising p [] ys h = h
  append-IsRising p (x ∷ xs) ys h = ground (arith, append-IsRising (next_time p x.created) xs ys)

  drop-IsRising : (n : ℕ) (rs : List (Sample A)) → IsRising 0 rs → IsRising 0 (drop n rs)
  drop-IsRising zero rs h = h
  drop-IsRising (suc n) [] h = tt
  drop-IsRising (suc n) (r ∷ rs) h =
      ground (arith, drop-IsRising n rs, IsRising-weaken (next_time 0 r.created) 0 rs)

  pub fill_from-IsRising :
      (expected prev p : ℕ) (rs : List (Sample A))
      → IsRising p rs
      → IsRising p (fill_from expected prev rs)
  unfolding fill_from
  fill_from-IsRising expected prev p [] h = tt
  fill_from-IsRising expected prev p (r ∷ rs) h =
      ground
        (arith, fill_from-IsRising expected (next_time prev r.created) (next_time p r.created) rs)

  pub AreRecords-IsRising : (p : ℕ) (rs : List (Sample A)) → AreRecords p rs → IsRising p rs
  AreRecords-IsRising p [] h = tt
  AreRecords-IsRising p (r ∷ rs) h = ground (arith, AreRecords-IsRising (next_time p r.created) rs)

  records_tail :
      (p : ℕ) (r : Sample A) (rs : List (Sample A))
      → AreRecords p (r ∷ rs)
      → AreRecords (next_time p r.created) rs
  records_tail p r rs h = ground (arith, h)

  -- After a record, the filled rest ends with a record.
  filled_rest :
      (expected prev p : ℕ) (r : Sample A) (rs : List (Sample A))
      → AreRecords p (r ∷ rs)
      → EndsTimed (r ∷ fill_from expected prev rs)
  unfolding fill_from
  filled_rest expected prev p r [] h = ground (arith, h)
  filled_rest expected prev p r (q ∷ rs) h =
      EndsTimed-append (r ∷ gap_before expected prev q.created) q
        (fill_from expected (next_time prev q.created) rs)
        (filled_rest expected (next_time prev q.created) (next_time p r.created) q rs
          (records_tail p r (q ∷ rs) h))

  -- The answer, with the markers of its gaps, ends with a record.
  filled-EndsTimed :
      (expected prev p : ℕ) (xs : List (Sample A)) (r : Sample A) (rs : List (Sample A))
      → AreRecords p (r ∷ rs)
      → EndsTimed (xs ++ fill_from expected prev (r ∷ rs))
  unfolding fill_from
  filled-EndsTimed expected prev p xs r rs h =
      subst EndsTimed
        (append_assoc xs (gap_before expected prev r.created)
          (r ∷ fill_from expected (next_time prev r.created) rs))
        (EndsTimed-append (xs ++ gap_before expected prev r.created) r
          (fill_from expected (next_time prev r.created) rs)
          (filled_rest expected (next_time prev r.created) p r rs h))

  -- The times of the cached records rise, and the last of them is a record.
  abbrev pub IsCached : List (Sample A) → Type 0
  IsCached rs = IsRising 0 rs × EndsTimed rs

  trim-IsCached : (rs : List (Sample A)) → IsCached rs → IsCached (trim rs)
  unfolding trim
  trim-IsCached rs (h, k) = elim (Bool-cases (ltb 120 (length rs))) [
    | inl long ↦
        rw long (drop-IsRising (length rs - 100) rs h, drop-EndsTimed (length rs - 100) rs k)
    | inr short ↦ rw short (h, k)
  ]

  -- An answer to the request of a cache has only records after the last of the cache.
  pub answer-AreRecords :
      (cached rs : List (Sample A))
      → gap ≤ 1
      → IsAnswer (asked_from cached) rs
      → AreRecords (last_created cached) rs
  unfolding asked_from
  answer-AreRecords cached [] near h = tt
  answer-AreRecords cached (r ∷ rs) near h = elim (Bool-cases (last_created cached == 0)) [
    | inl zero_last ↦ ground (arith, h, zero_last)
    | inr later ↦ ground (arith, h, later)
  ]

  pub merge-IsCached :
      (cached : List (Sample A)) (answer : List (Sample A)) (expected : ℕ)
      → gap ≤ 1
      → IsCached cached
      → IsAnswer (asked_from cached) answer
      → IsCached (merge cached (some answer) expected)
  unfolding merge add_empty_values
  merge-IsCached cached [] expected near h k = h
  merge-IsCached cached (r ∷ rs) expected near (h, ends) k =
      let records = answer-AreRecords cached (r ∷ rs) near k in
      trim-IsCached (cached ++ fill_from expected (last_created cached) (r ∷ rs)) (
        IsRising-append 0 cached (fill_from expected (last_created cached) (r ∷ rs)) h (
            rw (last_cached cached ends) (
              fill_from-IsRising expected (last_created cached) (last_created cached) (r ∷ rs)
                (AreRecords-IsRising (last_created cached) (r ∷ rs) records))),
        filled-EndsTimed expected (last_created cached) (last_created cached) cached r rs records,
      )

  records-IsLater : (p q : ℕ) (rs : List (Sample A)) → p < q → AreRecords q rs → IsLater p rs
  records-IsLater p q [] less h = tt
  records-IsLater p q (r ∷ rs) less h = ground (arith, records-IsLater p (next_time q r.created) rs)

  -- Whether or not the server's times are distinct, an answer has only records after those of the
  -- cache that it was asked for.
  pub answer-IsLater :
      (cached rs : List (Sample A))
      → IsAnswer (asked_from cached) rs
      → IsLater (last_created cached) rs
  unfolding asked_from
  answer-IsLater cached [] h = tt
  answer-IsLater cached (r ∷ rs) h = elim (Bool-cases (last_created cached == 0)) [
    | inl zero_last ↦
        ground
          (arith, h, zero_last, records-IsLater (last_created cached) (next_time 0 r.created) rs)
    | inr later ↦
        ground (arith, h, later, records-IsLater (last_created cached) (next_time 0 r.created) rs)
  ]
