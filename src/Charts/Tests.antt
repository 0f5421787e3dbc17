-- ===== src/Charts/Tests.antt =====
-- Charts of containers at concrete points.
use bezel_custom.Prelude.{ℕ, ◌≡◌, refl, none, some, List, [], ◌∷◌}
use bezel_custom.Dict.{Dict, get, put}
use bezel_custom.Charts.{ContainerStats, Point, cpu_of, add_to, container_chart_configs}

abbrev stats : ℕ → ContainerStats
stats n = record { c = some n; m = some 100; b = some (n, n); ns = none; nr = none }

abbrev points : List Point
points =
    (("created", none) ∷ ("db", some (stats 5)) ∷ ("web", some (stats 3)) ∷ [])
    ∷ (("created", none) ∷ [])
    ∷ (("created", none) ∷ ("web", some (stats 4)) ∷ ("mail", none) ∷ [])
    ∷ []

web_is_first : (container_chart_configs points).cpu ≡ ("web", 0) ∷ ("db", 360) ∷ []
unfolding container_chart_configs cpu_of add_to put get
web_is_first = refl

abbrev usage : Dict ℕ
usage = ("db", 5) ∷ ("web", 7) ∷ []
