-- ===== src/Utils/Duration.antt =====
-- formatDuration of internal/site/src/lib/utils.ts. A date is its time in milliseconds, none where it
-- is null, undefined or empty; the text is the list of its parts, before they are joined by spaces.
use bezel_custom.Prelude.{
  ℕ, ◌+◌, ◌*◌, ◌-◌, ◌/◌, ◌%◌, String, Option, none, some, List, [], ◌∷◌, ◌++◌, ltb, str_eq, leb,
  ◌==◌, if◌then◌else◌,
}

pub record Duration : Type 0 where
  pub hours : ℕ
  pub minutes : ℕ
  pub seconds : ℕ

abbrev pub split_seconds : ℕ → Duration
split_seconds total = record {
  hours = total / 3600;
  minutes = total % 3600 / 60;
  seconds = total % 60;
}

-- seconds close to 60 go to the next minute
abbrev pub round_seconds : Duration → Duration
round_seconds d = if leb 58 d.seconds then record d { minutes = d.minutes + 1; seconds = 0 } else d

-- minutes close to 60 go to the next hour
abbrev pub round_minutes : Duration → Duration
round_minutes d = if leb 60 d.minutes then record d { hours = d.hours + 1; minutes = 0 } else d

unfoldable pub rounded : ℕ → Duration
rounded diff_ms = round_minutes (round_seconds (split_seconds (diff_ms / 1000)))

-- a part that is 0 is null, and is filtered out
abbrev pub part : ℕ → String → List (ℕ × String)
part n unit = if n == 0 then [] else (n, unit) ∷ []

-- durations of an hour or more omit the seconds
unfoldable pub parts : Duration → List (ℕ × String)
parts d =
    if ltb 0 d.hours
    then part d.hours "h" ++ part d.minutes "m"
    else part d.hours "h" ++ part d.minutes "m" ++ part d.seconds "s"

unfoldable pub format_duration : Option ℕ → Option ℕ → List (ℕ × String)
format_duration none resolved = []
format_duration (some created) none = []
format_duration (some created) (some resolved) =
    if ltb resolved created then [] else parts (rounded (resolved - created))

-- The seconds that a part stands for.
abbrev pub part_seconds : ℕ × String → ℕ
part_seconds (n, unit) = if str_eq unit "h" then n * 3600 else if str_eq unit "m" then n * 60 else n

abbrev pub shown_seconds : List (ℕ × String) → ℕ
shown_seconds [] = 0
shown_seconds (p ∷ ps) = part_seconds p + shown_seconds ps
