-- ===== src/Toasts/Shown.antt =====
-- What stays on the page.
use bezel_custom.Prelude.{
  ℕ, ◌≤◌, ◌≡◌, refl, false, not, List, [], ◌∷◌, leb, ◌==◌, ◌&&◌, keep, length, map, All, All-imp,
  Bool-cases, inl, inr, arith, length-keep-le, ◌∙◌,
}
use bezel_custom.Toasts.{
  Toast, State, start, toast_limit, has_timer, Event, makes, updates, dismisses, elapses,
  dismiss_toast, expire, expire_due, elapse, step, run, close, changed, toast, update_toast,
  remove_toast, add_toast,
}
use bezel_custom.Toasts.Timers.{IsTimed}
use bezel_custom.Toasts.Removal.{All-expire}
use bezel_custom.Toasts.Session.{IsCalm, run-IsTidy, expire_due-rule}

abbrev pub open_ones : List Toast → List Toast
open_ones = keep (λ t. t.is_open)

open_ones-removal :
    (id : ℕ) (ts : List Toast)
    → All (λ t. ((id == t.id) && t.is_open) ≡ false) ts
    → open_ones (keep (λ t. not (t.id == id)) ts) ≡ open_ones ts
open_ones-removal id [] h = refl
open_ones-removal id (t ∷ ts) h = ground (arith, open_ones-removal id ts h.1)

open_ones-expire_due :
    (now : ℕ) (timers : List (ℕ × ℕ)) (s : State)
    → All (λ t. (has_timer t.id timers && t.is_open) ≡ false) s.toasts
    → open_ones (expire_due now timers s).toasts ≡ open_ones s.toasts
unfolding expire_due has_timer expire remove_toast
open_ones-expire_due now [] s h = refl
open_ones-expire_due now ((id, due) ∷ rest) s h =
    let left : All (λ t. (has_timer t.id rest && t.is_open) ≡ false) s.toasts =
      All-imp (λ t. (has_timer t.id ((id, due) ∷ rest) && t.is_open) ≡ false)
        (λ t. (has_timer t.id rest && t.is_open) ≡ false) s.toasts (λ t e. ground (arith, e)) h in
    let own : All (λ t. ((id == t.id) && t.is_open) ≡ false) s.toasts =
      All-imp (λ t. (has_timer t.id ((id, due) ∷ rest) && t.is_open) ≡ false)
        (λ t. ((id == t.id) && t.is_open) ≡ false) s.toasts (λ t e. ground (arith, e)) h in
    elim (Bool-cases (leb due now)) [
      | inl late ↦
          rw (expire_due, late)
            (open_ones-expire_due now rest (expire id s)
                (All-expire (λ t. (has_timer t.id rest && t.is_open) ≡ false) id s left)
              ∙ open_ones-removal id s.toasts own)
      | inr early ↦ rw (expire_due, early) (open_ones-expire_due now rest s left)
    ]

length-map : {A B : Type 0} (f : A → B) (xs : List A) → length (map f xs) ≡ length xs
length-map f [] = refl
length-map f (x ∷ xs) = omega (arith, length-map f xs)

expire-limit :
    (id : ℕ) (s : State) → length s.toasts ≤ toast_limit → length (expire id s).toasts ≤ toast_limit
unfolding expire remove_toast
expire-limit id s h = omega (arith, length-keep-le (λ t. not (t.id == id)) s.toasts)

step-limit :
    (e : ℕ × Event) (s : State)
    → length s.toasts ≤ toast_limit
    → length (step e s).toasts ≤ toast_limit
unfolding step toast update_toast dismiss_toast elapse add_toast
step-limit (now, makes title) s h = omega arith
step-limit (now, updates c) s h = omega (arith, length-map (changed c) s.toasts)
step-limit (now, dismisses id) s h = omega (arith, length-map (close id) s.toasts)
step-limit (now, elapses) s h =
    expire_due-rule (λ x. length x.toasts ≤ toast_limit) now s.timeouts s expire-limit h

run_from-limit :
    (es : List (ℕ × Event)) (s : State)
    → length s.toasts ≤ toast_limit
    → length (run es s).toasts ≤ toast_limit
unfolding run
run_from-limit [] s h = h
run_from-limit (e ∷ es) s h = run_from-limit es (step e s) (step-limit e s h)

-- After any events in which the count does not wrap, an update leaves alone whether its toast is
-- open and a dismissed id was given to a toast, passing time takes no open toast away, whatever
-- timers are pending, and no more toasts than the limit are kept.
pub open_stay :
    (es : List (ℕ × Event)) (later : ℕ)
    → IsCalm start es
    → (open_ones (elapse later (run es start)).toasts ≡ open_ones (run es start).toasts)
      × (length (run es start).toasts ≤ toast_limit)
unfolding elapse
open_stay es later calm = (
  open_ones-expire_due later (run es start).timeouts (run es start) (
      All-imp (IsTimed (run es start).count (run es start).timeouts)
        (λ t. (has_timer t.id (run es start).timeouts && t.is_open) ≡ false) (run es start).toasts
        (λ t timed. ground (arith, timed.0)) ((run-IsTidy es calm).0)),
  run_from-limit es start (omega arith),
)
