-- ===== src/Toasts/Tests.antt =====
-- Toasts at a concrete session.
use bezel_custom.Prelude.{
  ℕ, ◌≤◌, ◌≡◌, ◌≢◌, refl, true, none, some, List, [], ◌∷◌, arith, All, length,
}
use bezel_custom.Toasts.{
  start, toast_limit, Event, makes, updates, dismisses, elapses, dismiss_toast, elapse, run, step,
}
use bezel_custom.Toasts.Timers.{IsTidy}
use bezel_custom.Toasts.Removal.{dismissed_go}
use bezel_custom.Toasts.Session.{IsCalm, run-IsTidy}
use bezel_custom.Toasts.Shown.{open_ones, open_stay}

abbrev session : List (ℕ × Event)
session =
    (0, makes "Saved")
    ∷ (10, dismisses (some 1))
    ∷ (20, makes "Failed")
    ∷ (30, updates (record { id = 2; title = some "Failed to save"; is_open = none }))
    ∷ (1000020, elapses)
    ∷ []

session-IsCalm : IsCalm start session
unfolding run step
session-IsCalm = (omega arith, (omega arith, (omega arith, (refl, (tt, tt)))))

second_stays :
    (run session start).toasts ≡ record { id = 2; title = "Failed to save"; is_open = true } ∷ []
unfolding run
second_stays = refl

run-IsTidy_example : IsTidy (run session start)
run-IsTidy_example = run-IsTidy session session-IsCalm

dismissed_go_example :
    ((elapse 3000000 (dismiss_toast 1000020 none (run session start))).toasts ≡ [])
    × All
        (λ t. t.id ≢ 2)
        (elapse 3000000 (dismiss_toast 1000020 (some 2) (run session start))).toasts
dismissed_go_example =
    dismissed_go session 2 1000020 3000000
      (omega arith, (omega arith, (omega arith, (omega arith, (omega arith, omega arith)))))
      (omega arith)

open_stay_example :
    (open_ones (elapse 3000000 (run session start)).toasts ≡ open_ones (run session start).toasts)
    × (length (run session start).toasts ≤ toast_limit)
open_stay_example = open_stay session 3000000 session-IsCalm
