-- ===== src/SystemPage/Timestamps.antt =====
-- getPbTimestamp of internal/site/src/lib/api.ts: the text that bounds the fetch of records by the time
-- they were created. A text is the list of its code units.
use bezel_custom.Prelude.{
  ℕ, ◌+◌, ◌/◌, ◌%◌, ◌≤◌, ◌<◌, ◌≡◌, refl, Bool, true, false, List, [], ◌∷◌, ◌++◌, arith, ltb, ◌==◌,
  ◌&&◌, ◌||◌, not, ◌∙◌, ap, sym,
}

-- The parts of a date, as `getUTCFullYear` and the others give them; a month counts from 1.
pub record Moment : Type 0 where
  pub year : ℕ
  pub month : ℕ
  pub day : ℕ
  pub hours : ℕ
  pub minutes : ℕ
  pub seconds : ℕ

-- `String(n).padStart(2, "0")` of a number below 100
abbrev pub padded : ℕ → List ℕ
padded n = (48 + n / 10) ∷ (48 + n % 10) ∷ []

-- The text of a year from 1000 to 9999.
abbrev pub year_text : ℕ → List ℕ
year_text n = padded (n / 100) ++ padded (n % 100)

-- `-` is 45, a space 32 and `:` 58.
pub timestamp : Moment → List ℕ
timestamp m =
    year_text m.year
    ++ 45 ∷ padded m.month
    ++ 45 ∷ padded m.day
    ++ 32 ∷ padded m.hours
    ++ 58 ∷ padded m.minutes
    ++ 58 ∷ padded m.seconds

-- The order of texts: that of the first code units that differ, and a start comes first.
unfoldable pub is_before : List ℕ → List ℕ → Bool
is_before s [] = false
is_before [] (d ∷ t) = true
is_before (c ∷ s) (d ∷ t) = ltb c d || ((c == d) && is_before s t)

abbrev pub then_before : ℕ → ℕ → Bool → Bool
then_before a b later = ltb a b || ((a == b) && later)

padded_lem :
    (a b : ℕ) (s t : List ℕ)
    → a < 100
    → b < 100
    → is_before (padded a ++ s) (padded b ++ t) ≡ then_before a b (is_before s t)
unfolding is_before
padded_lem a b s t p q = ground arith

year_lem :
    (a b : ℕ) (s t : List ℕ)
    → a < 10000
    → b < 10000
    → is_before (year_text a ++ s) (year_text b ++ t) ≡ then_before a b (is_before s t)
year_lem a b s t p q =
    rw
      (
        padded_lem (a / 100) (b / 100) (padded (a % 100) ++ s) (padded (b % 100) ++ t) (omega arith)
            (omega arith),
        padded_lem (a % 100) (b % 100) s t (omega arith) (omega arith),
      )
      (ground arith)

separated : (c : ℕ) (s t : List ℕ) → is_before (c ∷ s) (c ∷ t) ≡ is_before s t
unfolding is_before
separated c s t = ground arith

-- The order of dates by year, month and so on; for the same second, the answer given.
abbrev pub by_parts : Moment → Moment → Bool → Bool
by_parts m n same = then_before m.year n.year (
    then_before m.month n.month (
      then_before m.day n.day (
        then_before m.hours n.hours
          (then_before m.minutes n.minutes (then_before m.seconds n.seconds same)))))

abbrev pub is_earlier : Moment → Moment → Bool
is_earlier m n = by_parts m n false

-- The year has four digits, and the other parts have at most two.
abbrev pub IsWritten : Moment → Type 0
IsWritten m =
    (1000 ≤ m.year)
    × (m.year < 10000)
    × (m.month < 100)
    × (m.day < 100)
    × (m.hours < 100)
    × (m.minutes < 100)
    × (m.seconds < 100)

field_lem :
    (c a b : ℕ) (s t : List ℕ)
    → a < 100
    → b < 100
    → is_before (c ∷ padded a ++ s) (c ∷ padded b ++ t) ≡ then_before a b (is_before s t)
field_lem c a b s t p q = separated c (padded a ++ s) (padded b ++ t) ∙ padded_lem a b s t p q

timestamp-append :
    (m n : Moment) (s t : List ℕ)
    → IsWritten m
    → IsWritten n
    → is_before (timestamp m ++ s) (timestamp n ++ t) ≡ by_parts m n (is_before s t)
unfolding timestamp
timestamp-append m n s t (_, y, mo, d, h, mi, se) (_, y', mo', d', h', mi', se') =
    year_lem m.year n.year _ _ y y'
    ∙ ap (then_before m.year n.year) (
        field_lem 45 m.month n.month _ _ mo mo'
        ∙ ap (then_before m.month n.month) (
            field_lem 45 m.day n.day _ _ d d'
            ∙ ap (then_before m.day n.day) (
                field_lem 32 m.hours n.hours _ _ h h'
                ∙ ap (then_before m.hours n.hours) (
                    field_lem 58 m.minutes n.minutes _ _ mi mi'
                    ∙ ap (then_before m.minutes n.minutes)
                        (field_lem 58 m.seconds n.seconds s t se se')))))

not-then_before :
    (a b : ℕ) (later : Bool) → not (then_before b a later) ≡ then_before a b (not later)
not-then_before a b later = ground arith

not-by_parts : (m n : Moment) (same : Bool) → not (by_parts n m same) ≡ by_parts m n (not same)
not-by_parts m n same =
    rw
      (
        not-then_before m.year n.year _,
        not-then_before m.month n.month _,
        not-then_before m.day n.day _,
        not-then_before m.hours n.hours _,
        not-then_before m.minutes n.minutes _,
        not-then_before m.seconds n.seconds _,
      )
      refl

-- The texts of two dates, whose years have four digits, are ordered as the dates are by their
-- parts. A date that is followed by anything, as by a fraction of a second, comes after the text
-- of another one exactly if it is not of an earlier second.
pub timestamp_lem :
    (m n : Moment) (c : ℕ) (rest : List ℕ)
    → IsWritten m
    → IsWritten n
    → (is_before (timestamp m) (timestamp n) ≡ is_earlier m n)
      × (is_before (timestamp m) (timestamp n ++ c ∷ rest) ≡ not (is_earlier n m))
unfolding is_before timestamp
timestamp_lem m n c rest p q = (
  timestamp-append m n [] [] p q,
  timestamp-append m n [] (c ∷ rest) p q ∙ sym (not-by_parts m n false),
)
