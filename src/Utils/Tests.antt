-- ===== src/Utils/Tests.antt =====
-- Runs of the helpers, and the theorems at concrete inputs.
use bezel_custom.Prelude.{
  ℕ, ◌*◌, ◌≡◌, refl, String, true, Option, none, some, List, [], ◌∷◌, ◌==◌, if◌then◌else◌,
}
use bezel_custom.Utils.Duration.{format_duration, rounded, parts}
use bezel_custom.Utils.Sizes.{bytes, mega, amount, format_bytes}
use bezel_custom.Utils.Versions.{SemVer}
use bezel_custom.Utils.Timers.{Debounced, Step, invokes, elapses, Once, once}

-- 59 minutes and 58 seconds are shown as an hour.
almost_an_hour : format_duration (some 1000) (some 3599000) ≡ (1, "h") ∷ []
unfolding format_duration rounded parts
almost_an_hour = refl

five_megabytes : format_bytes 5 bytes true ≡ amount 5242880 1048576 mega
unfolding format_bytes
five_megabytes = refl

abbrev burst : List (Step String)
burst = elapses 150 ∷ invokes 180 "b" ∷ elapses 260 ∷ invokes 270 "c" ∷ elapses 300 ∷ []

abbrev quiet : Debounced String
quiet = record { pending = none; calls = [] }

-- It throws on its first run.
abbrev flaky : ℕ → Option ℕ
flaky n = if n == 0 then none else some (n * 7)

abbrev tried : Once ℕ
tried = record { done = none; runs = 1 }

returned : (once flaky tried).1 ≡ some 7
unfolding once
returned = refl

abbrev old_version : SemVer
old_version = record { major = 0; minor = 12; patch = 3 }

abbrev new_version : SemVer
new_version = record { major = 0; minor = 16; patch = 1 }
