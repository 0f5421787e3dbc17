-- ===== src/Charts/Colors.antt =====
-- The order and the colors of the containers of a chart.
use mathlib.Core.List.{Perm}
use mathlib.Core.List.Perm
use bezel_custom.Prelude.{
  ℕ, suc, ◌+◌, ◌*◌, ◌≤◌, ◌<◌, ◌≡◌, refl, ap, String, List, [], ◌∷◌, map, leb, length, arith,
  Bool-cases, inl, inr,
}
use native.Mathlib.Nat.{mod-eq_of_lt}
use bezel_custom.Dict.{Dict}
use bezel_custom.Charts.{insert, sorted, hue, colors_from, chart_config}

insert-perm : (e : String × ℕ) (xs : List (String × ℕ)) → Perm (insert e xs) (e ∷ xs)
unfolding insert
insert-perm e [] = Perm.refl (e ∷ [])
insert-perm e (x ∷ xs) = elim (Bool-cases (leb x.1 e.1)) [
  | inl here ↦ rw (insert, here) (Perm.refl (e ∷ x ∷ xs))
  | inr later ↦ rw (insert, later) (Perm.trans (Perm.cons x (insert-perm e xs)) (Perm.swap e x xs))
]

sorted-perm : (xs : List (String × ℕ)) → Perm (sorted xs) xs
unfolding sorted
sorted-perm [] = Perm.refl []
sorted-perm (x ∷ xs) = Perm.trans (insert-perm x (sorted xs)) (Perm.cons x (sorted-perm xs))

-- No entry is followed by a greater one.
abbrev pub IsDescending : List (String × ℕ) → Type 0
IsDescending [] = Unit
IsDescending (x ∷ []) = Unit
IsDescending (x ∷ y ∷ rest) = (y.1 ≤ x.1) × IsDescending (y ∷ rest)

insert-IsDescending :
    (e : String × ℕ) (xs : List (String × ℕ)) → IsDescending xs → IsDescending (insert e xs)
unfolding insert
insert-IsDescending e [] h = tt
insert-IsDescending e (x ∷ []) h = ground (arith, h)
insert-IsDescending e (x ∷ y ∷ rest) h = ground (arith, h, insert-IsDescending e (y ∷ rest) h.1)

sorted-IsDescending : (xs : List (String × ℕ)) → IsDescending (sorted xs)
unfolding sorted
sorted-IsDescending [] = tt
sorted-IsDescending (x ∷ xs) = insert-IsDescending x (sorted xs) (sorted-IsDescending xs)

length-insert : (e : String × ℕ) (xs : List (String × ℕ)) → length (insert e xs) ≡ suc (length xs)
unfolding insert
length-insert e [] = refl
length-insert e (x ∷ xs) = ground (arith, length-insert e xs)

length-sorted : (xs : List (String × ℕ)) → length (sorted xs) ≡ length xs
unfolding sorted
length-sorted [] = refl
length-sorted (x ∷ xs) = omega (arith, length-insert x (sorted xs), length-sorted xs)

-- Each hue, times the number of containers, is that of its index, within the circle.
abbrev pub IsSpread : ℕ → ℕ → List ℕ → Type 0
IsSpread count i [] = Unit
IsSpread count i (h ∷ hs) = (h ≡ 360 * i) × (h < 360 * count) × IsSpread count (i + 1) hs

hue_lem : (count i : ℕ) → i < count → hue count i ≡ 360 * i
unfolding hue
hue_lem count i lt =
    let e : i * 360 ≡ 360 * i = omega arith in rw e (mod-eq_of_lt (omega (arith, lt)))

colors_from-IsSpread :
    (count i : ℕ) (es : List (String × ℕ))
    → i + length es ≤ count
    → IsSpread count i (map (λ e. e.1) (colors_from count i es))
unfolding colors_from
colors_from-IsSpread count i [] le = tt
colors_from-IsSpread count i (e ∷ es) le = (
  hue_lem count i (omega (arith, le)),
  omega (arith, le, hue_lem count i),
  colors_from-IsSpread count (i + 1) es (omega (arith, le)),
)

colors_from-names :
    (count i : ℕ) (es : List (String × ℕ))
    → map (λ e. e.0) (colors_from count i es) ≡ map (λ e. e.0) es
unfolding colors_from
colors_from-names count i [] = refl
colors_from-names count i (e ∷ es) = ap (λ names. e.0 ∷ names) (colors_from-names count (i + 1) es)

-- The configuration of a chart has the containers of the totals, each as often as there, in an
-- order in which no total is followed by a greater one, and their hues are spread evenly over the
-- circle in that order.
pub chart_config_lem :
    (usage : Dict ℕ)
    → (order : List (String × ℕ)) × Perm order usage
      × IsDescending order
      × (map (λ e. e.0) (chart_config usage) ≡ map (λ e. e.0) order)
      × IsSpread (length usage) 0 (map (λ e. e.1) (chart_config usage))
unfolding chart_config
chart_config_lem usage = (
  sorted usage,
  sorted-perm usage,
  sorted-IsDescending usage,
  colors_from-names (length usage) 0 (sorted usage),
  colors_from-IsSpread (length usage) 0 (sorted usage) (omega (arith, length-sorted usage)),
)
