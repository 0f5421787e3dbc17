-- ===== src/Toasts/Removal.antt =====
-- How dismissed toasts go away.
use bezel_custom.Prelude.{
  ℕ, ◌+◌, ◌≤◌, ◌≡◌, ◌≢◌, refl, Bool, true, false, not, none, some, List, [], ◌∷◌, ◌==◌,
  if◌then◌else◌, All, All-imp, All-keep, All-always, All-map, All-both, subst, sym, ap,
  if◌then◌else◌, Bool-cases, inl, inr, le→leb, arith,
}
use bezel_custom.Toasts.{
  Toast, State, start, toast_remove_delay, has_timer, Event, makes, updates, dismisses, elapses,
  dismiss_toast, expire, expire_due, elapse, step, run, close, add_to_remove_queue, queue_all,
  toast, update_toast, remove_toast,
}
use bezel_custom.Toasts.Timers.{has_timer-add, queue_all-has_timer}
use bezel_custom.Toasts.Session.{expire_due-rule}

-- The times of events do not go back, from one time up to another.
abbrev pub IsOrdered : ℕ → List (ℕ × Event) → ℕ → Type 0
IsOrdered from [] to = from ≤ to
IsOrdered from (e ∷ es) to = (from ≤ e.0) × IsOrdered e.0 es to

abbrev IsDueBy : ℕ → List (ℕ × ℕ) → Type 0
IsDueBy time = All (λ timer. timer.1 ≤ time)

IsDueBy-later :
    (a b : ℕ) (timeouts : List (ℕ × ℕ)) → a ≤ b → IsDueBy a timeouts → IsDueBy b timeouts
IsDueBy-later a b timeouts le =
    All-imp (λ timer. timer.1 ≤ a) (λ timer. timer.1 ≤ b) timeouts (λ timer h. omega arith)

add-IsDueBy :
    (now id : ℕ) (timeouts : List (ℕ × ℕ))
    → IsDueBy (now + toast_remove_delay) timeouts
    → IsDueBy (now + toast_remove_delay) (add_to_remove_queue now id timeouts)
unfolding add_to_remove_queue
add-IsDueBy now id timeouts h = elim (Bool-cases (has_timer id timeouts)) [
  | inl there ↦ rw there h
  | inr absent ↦ rw absent (omega arith, h)
]

queue_all-IsDueBy :
    (now : ℕ) (ts : List Toast) (timeouts : List (ℕ × ℕ))
    → IsDueBy (now + toast_remove_delay) timeouts
    → IsDueBy (now + toast_remove_delay) (queue_all now ts timeouts)
unfolding queue_all
queue_all-IsDueBy now [] timeouts h = h
queue_all-IsDueBy now (t ∷ ts) timeouts h =
    queue_all-IsDueBy now ts (add_to_remove_queue now t.id timeouts)
      (add-IsDueBy now t.id timeouts h)

expire-IsDueBy :
    (time id : ℕ) (s : State) → IsDueBy time s.timeouts → IsDueBy time (expire id s).timeouts
unfolding expire
expire-IsDueBy time id s h =
    All-keep (λ timer. timer.1 ≤ time) (λ timer. timer.1 ≤ time) (λ timer. not (timer.0 == id))
      s.timeouts (λ timer kept le. le) h

step-IsDueBy :
    (e : ℕ × Event) (s : State)
    → IsDueBy (e.0 + toast_remove_delay) s.timeouts
    → IsDueBy (e.0 + toast_remove_delay) (step e s).timeouts
unfolding step elapse toast update_toast dismiss_toast
step-IsDueBy (now, makes title) s h = h
step-IsDueBy (now, updates c) s h = h
step-IsDueBy (now, dismisses none) s h = queue_all-IsDueBy now s.toasts s.timeouts h
step-IsDueBy (now, dismisses (some id)) s h = add-IsDueBy now id s.timeouts h
step-IsDueBy (now, elapses) s h =
    expire_due-rule (λ x. IsDueBy (now + toast_remove_delay) x.timeouts) now s.timeouts s
      (expire-IsDueBy (now + toast_remove_delay)) h

run-IsDueBy :
    (from to : ℕ) (es : List (ℕ × Event)) (s : State)
    → IsOrdered from es to
    → IsDueBy (from + toast_remove_delay) s.timeouts
    → IsDueBy (to + toast_remove_delay) (run es s).timeouts
unfolding run
run-IsDueBy from to [] s le h =
    IsDueBy-later (from + toast_remove_delay) (to + toast_remove_delay) s.timeouts (omega arith) h
run-IsDueBy from to (e ∷ es) s ordered h = run-IsDueBy e.0 to es (step e s) ordered.1 (
    step-IsDueBy e s (
      IsDueBy-later (from + toast_remove_delay) (e.0 + toast_remove_delay) s.timeouts
        (omega (arith, ordered.0)) h))

id-other : (i id : ℕ) → not (i == id) ≡ true → (id == i) ≡ false
id-other i id h = ground arith

expire-removes : (id : ℕ) (s : State) → All (λ t. (id == t.id) ≡ false) (expire id s).toasts
unfolding expire remove_toast
expire-removes id s =
    All-keep {0, 0, 0} (λ t. Unit) (λ t. (id == t.id) ≡ false) (λ t. not (t.id == id)) s.toasts
      (λ t kept u. id-other t.id id kept) (All-always (λ t. Unit) s.toasts (λ t. tt))

-- What holds of every toast, the callback of a timer leaves so.
pub All-expire :
    (P : Toast → Type 0) (id : ℕ) (s : State) → All P s.toasts → All P (expire id s).toasts
unfolding expire remove_toast
All-expire P id s = All-keep P P (λ t. not (t.id == id)) s.toasts (λ t kept h. h)

expire_due-late :
    (now id due : ℕ) (rest : List (ℕ × ℕ)) (s : State)
    → due ≤ now
    → expire_due now rest (expire id s) ≡ expire_due now ((id, due) ∷ rest) s
unfolding expire_due
expire_due-late now id due rest s le =
    ap (λ late. expire_due now rest (if late then expire id s else s)) (sym (le→leb due now le))

-- A toast with a timer that is due goes.
expire_due-gone :
    (now : ℕ) (timers : List (ℕ × ℕ)) (s : State)
    → IsDueBy now timers
    → All (λ t. has_timer t.id timers ≡ false) (expire_due now timers s).toasts
unfolding expire_due has_timer
expire_due-gone now [] s h = All-always (λ t. false ≡ false) s.toasts (λ t. refl)
expire_due-gone now ((id, due) ∷ rest) s h =
    subst (λ x. All (λ t. has_timer t.id ((id, due) ∷ rest) ≡ false) x.toasts)
      (expire_due-late now id due rest s h.0)
      (All-imp (λ t. ((id == t.id) ≡ false) × (has_timer t.id rest ≡ false))
        (λ t. has_timer t.id ((id, due) ∷ rest) ≡ false) (expire_due now rest (expire id s)).toasts
        (λ t both. ground (arith, both.0, both.1))
        (All-both (λ t. (id == t.id) ≡ false) (λ t. has_timer t.id rest ≡ false)
          (expire_due now rest (expire id s)).toasts
          (expire_due-rule (λ x. All (λ t. (id == t.id) ≡ false) x.toasts) now rest (expire id s)
            (All-expire (λ t. (id == t.id) ≡ false)) (expire-removes id s))
          (expire_due-gone now rest (expire id s) h.1)))

contrary-empty :
    (p : Toast → Bool) (ts : List Toast)
    → All (λ t. p t ≡ true) ts
    → All (λ t. p t ≡ false) ts
    → ts ≡ []
contrary-empty p [] h g = refl
contrary-empty p (t ∷ ts) h g = cc

dismiss_all-gone :
    (now later : ℕ) (s : State)
    → IsDueBy later (queue_all now s.toasts s.timeouts)
    → (elapse later (dismiss_toast now none s)).toasts ≡ []
unfolding elapse dismiss_toast
dismiss_all-gone now later s due =
    let timers : List (ℕ × ℕ) = queue_all now s.toasts s.timeouts in
    contrary-empty (λ t. has_timer t.id timers) (elapse later (dismiss_toast now none s)).toasts
      (expire_due-rule (λ x. All (λ t. has_timer t.id timers ≡ true) x.toasts) later timers
        (dismiss_toast now none s) (All-expire (λ t. has_timer t.id timers ≡ true))
        (All-map (λ t. has_timer t.id timers ≡ true) (λ t. has_timer t.id timers ≡ true)
          (close none) s.toasts (λ t h. h) (queue_all-has_timer now s.toasts s.timeouts)))
      (expire_due-gone later timers (dismiss_toast now none s) due)

dismiss_one-gone :
    (now later id : ℕ) (s : State)
    → IsDueBy later (add_to_remove_queue now id s.timeouts)
    → All (λ t. t.id ≢ id) (elapse later (dismiss_toast now (some id) s)).toasts
unfolding elapse dismiss_toast
dismiss_one-gone now later id s due =
    let timers : List (ℕ × ℕ) = add_to_remove_queue now id s.timeouts in
    let timed : has_timer id timers ≡ true = ground (arith, has_timer-add now id id s.timeouts) in
    All-imp (λ t. has_timer t.id timers ≡ false) (λ t. t.id ≢ id)
      (elapse later (dismiss_toast now (some id) s)).toasts (λ t untimed same. cc)
      (expire_due-gone later timers (dismiss_toast now (some id) s) due)

-- After any events at times that do not go back, dismiss every toast, or the one with an id, and
-- let the remove delay pass: no toast is left, or none with that id.
pub dismissed_go :
    (es : List (ℕ × Event)) (id now later : ℕ)
    → IsOrdered 0 es now
    → now + toast_remove_delay ≤ later
    → ((elapse later (dismiss_toast now none (run es start))).toasts ≡ [])
      × All (λ t. t.id ≢ id) (elapse later (dismiss_toast now (some id) (run es start))).toasts
dismissed_go es id now later ordered late =
    let s : State = run es start in
    let due : IsDueBy (now + toast_remove_delay) s.timeouts =
      run-IsDueBy 0 now es start ordered tt in
    (
      dismiss_all-gone now later s (
          IsDueBy-later (now + toast_remove_delay) later (queue_all now s.toasts s.timeouts) late
            (queue_all-IsDueBy now s.toasts s.timeouts due)),
      dismiss_one-gone now later id s (
          IsDueBy-later (now + toast_remove_delay) later (add_to_remove_queue now id s.timeouts)
            late (add-IsDueBy now id s.timeouts due)),
    )
