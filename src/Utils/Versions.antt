-- ===== src/Utils/Versions.antt =====
-- compareSemVer of internal/site/src/lib/utils.ts.
use bezel_custom.Prelude.{
  ℕ, ◌-◌, ◌<◌, ◌≡◌, ◌↔◌, ◌⊎◌, subst, Bool, true, false, arith, ltb, ◌==◌, if◌then◌else◌,
}

pub record SemVer : Type 0 where
  pub major : ℕ
  pub minor : ℕ
  pub patch : ℕ

-- A difference of two numbers, which is below 0, 0 or above 0: `below n` is -1 less n, `above n` is
-- 1 and n more.
pub data Difference : Type 0 where
  below : ℕ → Difference
  equal : Difference
  above : ℕ → Difference

pub minus : ℕ → ℕ → Difference
minus a b = if ltb a b then below (b - a - 1) else if a == b then equal else above (a - b - 1)

pub compare_sem_ver : SemVer → SemVer → Difference
unfolding minus
compare_sem_ver a b =
    if a.major == b.major
    then (if a.minor == b.minor then minus a.patch b.patch else minus a.minor b.minor)
    else minus a.major b.major

abbrev pub is_below : Difference → Bool
is_below (below n) = true
is_below _ = false

abbrev pub opposite : Difference → Difference
opposite (below n) = above n
opposite equal = equal
opposite (above n) = below n

minus-opposite : (a b : ℕ) → minus b a ≡ opposite (minus a b)
unfolding minus
minus-opposite a b = ground arith

minus_iff : (a b : ℕ) → (minus a b ≡ equal) ↔ (a ≡ b)
unfolding minus
minus_iff a b = (λ e. ground arith, λ e. ground arith)

-- The first of the three numbers that differs is smaller.
abbrev pub IsBefore : SemVer → SemVer → Type 0
IsBefore a b =
    (a.major < b.major)
    ⊎ ((a.major ≡ b.major) × ((a.minor < b.minor) ⊎ ((a.minor ≡ b.minor) × (a.patch < b.patch))))

below_lem : (a b : ℕ) → (is_below (minus a b) ≡ true) ↔ (a < b)
unfolding minus
below_lem a b = (λ e. ground arith, λ e. ground arith)

version_path : (a b : SemVer) → a.major ≡ b.major → a.minor ≡ b.minor → a.patch ≡ b.patch → a ≡ b
version_path a b p q r = λ i. record { major = p i; minor = q i; patch = r i }

numbers_equal :
    (a b : SemVer)
    → compare_sem_ver a b ≡ equal
    → (a.major ≡ b.major) × (a.minor ≡ b.minor) × (a.patch ≡ b.patch)
unfolding compare_sem_ver
numbers_equal a b e =
    ground (arith, minus_iff a.major b.major, minus_iff a.minor b.minor, minus_iff a.patch b.patch)

equal_lem : (a b : SemVer) → compare_sem_ver a b ≡ equal → a ≡ b
equal_lem a b e = let (p, q, r) = numbers_equal a b e in version_path a b p q r

equal_self : (a : SemVer) → compare_sem_ver a a ≡ equal
unfolding compare_sem_ver
equal_self a = ground arith

before_lem : (a b : SemVer) → (is_below (compare_sem_ver a b) ≡ true) ↔ IsBefore a b
unfolding compare_sem_ver
before_lem a b = (
  λ e.
      ground
        (arith, below_lem a.major b.major, below_lem a.minor b.minor, below_lem a.patch b.patch),
  λ h.
      ground
        (arith, below_lem a.major b.major, below_lem a.minor b.minor, below_lem a.patch b.patch),
)

-- The comparison of versions is the order by major, then minor, then patch: it is below 0 exactly
-- if the first of these that differs is smaller, 0 exactly for equal versions, and its opposite
-- when the versions are swapped.
pub compare_sem_ver_lem :
    (a b : SemVer)
    → (compare_sem_ver b a ≡ opposite (compare_sem_ver a b))
      × ((compare_sem_ver a b ≡ equal) ↔ (a ≡ b))
      × ((is_below (compare_sem_ver a b) ≡ true) ↔ IsBefore a b)
unfolding compare_sem_ver minus
compare_sem_ver_lem a b = (
  ground arith,
  (equal_lem a b, λ e. subst (λ x. compare_sem_ver a x ≡ equal) e (equal_self a)),
  before_lem a b,
)
