-- ===== src/Observer/Tests.antt =====
-- The hook at concrete notifications.
use bezel_custom.Prelude.{ℕ, ◌≡◌, refl, true, false, some, [], ◌∷◌}
use bezel_custom.Observer.{
  Entry, Options, Hook, begin, in_view, frozen, sets_ref, notifies, step, run,
}
use bezel_custom.Observer.Freezing.{shows, freezes_at}

abbrev half : Options
half = record { thresholds = 500 ∷ []; freeze = true; initial = false }

abbrev entry : ℕ → Entry
entry ratio = record { element = 7; is_intersecting = true; ratio = ratio }

abbrev watching : Hook
watching = step half (sets_ref (some 7)) (begin half)

-- An entry under the threshold freezes the hook, and the full one that follows is not reported.
stays_out_of_view :
    (run half
      (notifies (entry 100 ∷ []) ∷ notifies (entry 1000 ∷ []) ∷ [])
      watching).is_intersecting
    ≡ false
unfolding run begin
stays_out_of_view = refl

freezes_at_example :
    shows half
      (run half (notifies (entry 1000 ∷ []) ∷ []) (step half (notifies (entry 100 ∷ [])) watching))
    ≡ (in_view half (entry 100), some (entry 100), (in_view half (entry 100), entry 100) ∷ [])
unfolding step begin frozen
freezes_at_example =
    freezes_at half (notifies (entry 1000 ∷ []) ∷ []) 7 (entry 100) watching refl refl refl refl
