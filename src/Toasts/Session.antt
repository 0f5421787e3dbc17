-- ===== src/Toasts/Session.antt =====
-- Sessions of toasts: events one after another, each at its time.
use bezel_custom.Prelude.{
  ℕ, ◌+◌, ◌≤◌, ◌<◌, ◌≡◌, none, some, List, [], ◌∷◌, leb, Bool-cases, inl, inr,
}
use bezel_custom.Toasts.{
  State, start, max_safe_integer, Event, makes, updates, dismisses, elapses, expire, expire_due,
  elapse, step, run,
}
use bezel_custom.Toasts.Timers.{
  IsTidy, toast-IsTidy, update_toast-IsTidy, dismiss_one-IsTidy, dismiss_all-IsTidy, expire-IsTidy,
}

-- The count does not wrap, an update leaves alone whether the toast is open, and an id that is dismissed was
-- given to a toast.
abbrev pub IsAllowed : State → Event → Type 0
IsAllowed s (makes title) = s.count + 1 < max_safe_integer
IsAllowed s (updates c) = c.is_open ≡ none
IsAllowed s (dismisses none) = Unit
IsAllowed s (dismisses (some id)) = id ≤ s.count
IsAllowed s elapses = Unit

abbrev pub IsCalm : State → List (ℕ × Event) → Type 0
IsCalm s [] = Unit
IsCalm s (e ∷ es) = IsAllowed s e.1 × IsCalm (step e s) es

-- What the callback of every timer keeps, the passing of time keeps.
pub expire_due-rule :
    (P : State → Type 0) (now : ℕ) (timers : List (ℕ × ℕ)) (s : State)
    → ((id : ℕ) (x : State) → P x → P (expire id x))
    → P s
    → P (expire_due now timers s)
unfolding expire_due
expire_due-rule P now [] s f h = h
expire_due-rule P now ((id, due) ∷ rest) s f h = elim (Bool-cases (leb due now)) [
  | inl late ↦ rw (expire_due, late) (expire_due-rule P now rest (expire id s) f (f id s h))
  | inr early ↦ rw (expire_due, early) (expire_due-rule P now rest s f h)
]

step-IsTidy : (e : ℕ × Event) (s : State) → IsAllowed s e.1 → IsTidy s → IsTidy (step e s)
unfolding step elapse
step-IsTidy (now, makes title) s ok h = toast-IsTidy title s ok h
step-IsTidy (now, updates c) s ok h = update_toast-IsTidy c s ok h
step-IsTidy (now, dismisses none) s ok h = dismiss_all-IsTidy now s h
step-IsTidy (now, dismisses (some id)) s ok h = dismiss_one-IsTidy now id s ok h
step-IsTidy (now, elapses) s ok h = expire_due-rule IsTidy now s.timeouts s expire-IsTidy h

run_from-IsTidy : (es : List (ℕ × Event)) (s : State) → IsCalm s es → IsTidy s → IsTidy (run es s)
unfolding run
run_from-IsTidy [] s calm h = h
run_from-IsTidy (e ∷ es) s calm h = run_from-IsTidy es (step e s) calm.1 (step-IsTidy e s calm.0 h)

-- After any events in which the count does not wrap, an update leaves alone whether its toast is
-- open and a dismissed id was given to a toast, a toast has a timer exactly if it is closed, and
-- no id is past the count.
pub run-IsTidy : (es : List (ℕ × Event)) → IsCalm start es → IsTidy (run es start)
run-IsTidy es calm = run_from-IsTidy es start calm (tt, tt)
