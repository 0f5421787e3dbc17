-- ===== src/PackageUpdates/Jobs.antt =====
-- A job that installs packages, from its start to the toast that tells its result.
use bezel_custom.Prelude.{
  ℕ, suc, ◌≡◌, ◌⊎◌, inl, inr, refl, ap, ◌∙◌, true, false, none, some, List, [], ◌∷◌, ◌++◌, ◌==◌,
  given, arith, ==_iff, All, Bool-cases,
}
use bezel_custom.PackageUpdates.{
  ApplyStatus, JobStatus, running, done, failed, unreachable, Toast, packages_updated,
  update_failed, count, State, tell_result, announce, start_over, poll_at, poll_answered,
  follow_job, is_active, is_active_at,
}

-- Answers to polls, each with the time of the clock.
pub polls : List (ℕ × ApplyStatus) → State → State
polls [] s = s
polls ((now, answer) ∷ answers) s = polls answers (poll_answered now answer s)

abbrev pub IsActive : JobStatus → Type 0
IsActive status = (status ≡ running) ⊎ (status ≡ unreachable)

abbrev pub IsOver : JobStatus → Type 0
IsOver status = (status ≡ done) ⊎ (status ≡ failed)

-- An answer of a job that is not over.
abbrev pub IsWaiting : ℕ × ApplyStatus → Type 0
IsWaiting (now, answer) = IsActive answer.status

-- An answer that a job is over since a time.
abbrev pub IsEnd : ℕ → ℕ × ApplyStatus → Type 0
IsEnd time (now, answer) = (answer.finished_at ≡ some time) × IsOver answer.status

abbrev toast_at : JobStatus → ApplyStatus → Toast
toast_at failed answer = update_failed answer.message
toast_at _ answer = packages_updated (count answer.packages)

abbrev pub result_toast : ApplyStatus → Toast
result_toast answer = toast_at answer.status answer

-- The answers, by their status.
tell_over :
    (j : JobStatus) (answer : ApplyStatus) (s : State)
    → IsOver j
    → ((tell_result j answer s).toasts ≡ s.toasts ++ toast_at j answer ∷ [])
      × ((tell_result j answer s).announced_job ≡ s.announced_job)
      × ((tell_result j answer s).applying ≡ s.applying)
unfolding tell_result
tell_over j answer s (inl over) = rw over (refl, refl, refl)
tell_over j answer s (inr over) = rw over (refl, refl, refl)

poll_over :
    (j : JobStatus) (now time : ℕ) (answer : ApplyStatus) (s : State)
    → IsOver j
    → answer.finished_at ≡ some time
    → poll_at j now answer s ≡ start_over (announce time answer (record s { applying = none }))
unfolding poll_at
poll_over j now time answer s (inl over) e =
    rw over (ap (λ o. start_over (announce (given o now) answer (record s { applying = none }))) e)
poll_over j now time answer s (inr over) e =
    rw over (ap (λ o. start_over (announce (given o now) answer (record s { applying = none }))) e)

poll_running :
    (j : JobStatus) (now : ℕ) (answer : ApplyStatus) (s : State)
    → j ≡ running
    → poll_at j now answer s ≡ record s { applying = some answer }
unfolding poll_at
poll_running j now answer s e = rw e refl

poll_away :
    (j : JobStatus) (now : ℕ) (answer : ApplyStatus) (s : State)
    → j ≡ unreachable
    → poll_at j now answer s
      ≡ record s { applying = some (record (given s.applying answer) { status = unreachable }) }
unfolding poll_at
poll_away j now answer s e = rw e refl

-- An answer at a state that has the job as told changes no toast.
told :
    (time now : ℕ) (answer : ApplyStatus) (s : State)
    → IsEnd time (now, answer)
    → s.announced_job ≡ time
    → ((poll_answered now answer s).toasts ≡ s.toasts)
      × ((poll_answered now answer s).announced_job ≡ time)
unfolding poll_answered start_over announce
told time now answer s (e, over) h =
    let same : (s.announced_job == time) ≡ true = (==_iff s.announced_job time).1 h in
    rw (poll_over answer.status now time answer s over e, same) (refl, h)

told_again :
    (time : ℕ) (again : List (ℕ × ApplyStatus)) (s : State)
    → All (IsEnd time) again
    → s.announced_job ≡ time
    → (polls again s).toasts ≡ s.toasts
unfolding polls
told_again time [] s ends h = refl
told_again time ((now, answer) ∷ again) s ends h =
    let (kept, still) = told time now answer s ends.0 h in
    told_again time again (poll_answered now answer s) ends.1 still ∙ kept

-- The first answer that a job is over, at a state that has no job as told.
first_told :
    (time now : ℕ) (answer : ApplyStatus) (s : State)
    → IsEnd (suc time) (now, answer)
    → s.announced_job ≡ 0
    → ((poll_answered now answer s).toasts ≡ s.toasts ++ result_toast answer ∷ [])
      × ((poll_answered now answer s).announced_job ≡ suc time)
unfolding poll_answered start_over announce
first_told time now answer s (e, over) h =
    let fresh : (s.announced_job == suc time) ≡ false = ground (arith, h) in
    let (shown, kept, rest) =
      tell_over answer.status answer (record s { applying = none; announced_job = suc time })
        over in
    rw (poll_over answer.status now (suc time) answer s over e, fresh) (shown, kept)

-- While the answers say that the job goes on, it is polled and nothing is told.
waits :
    (middle : List (ℕ × ApplyStatus)) (s : State)
    → All IsWaiting middle
    → is_active s.applying ≡ true
    → (is_active (polls middle s).applying ≡ true)
      × ((polls middle s).toasts ≡ s.toasts)
      × ((polls middle s).announced_job ≡ s.announced_job)
unfolding polls poll_answered is_active is_active_at
waits [] s waiting h = (h, refl, refl)
waits ((now, answer) ∷ middle) s (inl going, rest) h =
    rw (polls, poll_answered, poll_running answer.status now answer s going)
      (waits middle (record s { applying = some answer }) rest (ap (λ j. is_active_at j) going))
waits ((now, answer) ∷ middle) s (inr away, rest) h =
    rw (polls, poll_answered, poll_away answer.status now answer s away)
      (waits middle
        (record s { applying = some (record (given s.applying answer) { status = unreachable }) })
        rest refl)

-- What is left when the job is over.
over_rests :
    (time now : ℕ) (answer : ApplyStatus) (s : State)
    → IsEnd time (now, answer)
    → (is_active (poll_answered now answer s).applying ≡ false)
      × ((poll_answered now answer s).selected ≡ [])
unfolding poll_answered start_over announce is_active
over_rests time now answer s (e, over) =
    let (shown, kept, rest) =
      tell_over answer.status answer (record s { applying = none; announced_job = time }) over in
    rw (poll_over answer.status now time answer s over e)
      (elim (Bool-cases (s.announced_job == time)) [
        | inl same ↦ rw same (refl, refl)
        | inr other ↦ rw other (ap is_active rest, refl)
      ])

polls-append :
    (xs ys : List (ℕ × ApplyStatus)) (s : State) → polls (xs ++ ys) s ≡ polls ys (polls xs s)
unfolding polls
polls-append [] ys s = refl
polls-append ((now, answer) ∷ xs) ys s = polls-append xs ys (poll_answered now answer s)

followed :
    (status : ApplyStatus) (s : State)
    → IsActive status.status
    → is_active (follow_job status s).applying ≡ true
unfolding follow_job is_active is_active_at
followed status s (inl going) = ap (λ j. is_active_at j) going
followed status s (inr away) = ap (λ j. is_active_at j) away

-- Once a job is followed with a status that is running or unreachable, it is polled as long as the
-- answers say one of the two; the first answer that it is done or failed ends the polling; and
-- however many further answers of the same end arrive, exactly one toast is shown, that of this
-- first answer. The time of the end is not 0.
pub job_told_once :
    (status : ApplyStatus) (middle again : List (ℕ × ApplyStatus)) (time now : ℕ)
    (last : ApplyStatus) (s : State)
    → IsActive status.status
    → All IsWaiting middle
    → All (IsEnd (suc time)) ((now, last) ∷ again)
    → (is_active (polls middle (follow_job status s)).applying ≡ true)
      × (is_active (polls (middle ++ (now, last) ∷ []) (follow_job status s)).applying ≡ false)
      × ((polls (middle ++ (now, last) ∷ again) (follow_job status s)).toasts
          ≡ s.toasts ++ result_toast last ∷ [])
unfolding polls follow_job
job_told_once status middle again time now last s active waiting ends =
    let start : State = follow_job status s in
    let (polled, kept, fresh) = waits middle start waiting (followed status s active) in
    let (shown, told_at) = first_told time now last (polls middle start) ends.0 (fresh ∙ refl) in
    (
      polled,
      rw (polls-append middle ((now, last) ∷ []) start)
          (over_rests (suc time) now last (polls middle start) ends.0).0,
      rw (polls-append middle ((now, last) ∷ again) start) (
          told_again (suc time) again (poll_answered now last (polls middle start)) ends.1 told_at
          ∙ shown
          ∙ ap (λ ts. ts ++ result_toast last ∷ []) kept),
    )
