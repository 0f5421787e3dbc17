-- ===== src/Charts/Totals.antt =====
-- What the totals are.
use bezel_custom.Prelude.{
  ℕ, ◌+◌, ◌≡◌, refl, ap, ◌∙◌, String, Option, none, some, List, [], ◌∷◌, str_eq, eq_iff, arith,
  if◌then◌else◌, Bool-cases, inl, inr,
}
use bezel_custom.Dict.{Dict, get, get-put}
use bezel_custom.Charts.{
  ContainerStats, Point, Usage, no_usage, or_zero, cpu_of, memory_of, network_of, add_to, add_entry,
  add_point, add_points,
}

-- The sum of two totals, of which either may be missing.
abbrev pub plus : Option ℕ → Option ℕ → Option ℕ
plus none o = o
plus (some n) none = some n
plus (some n) (some k) = some (n + k)

plus_assoc : (a b c : Option ℕ) → plus (plus a b) c ≡ plus a (plus b c)
plus_assoc none b c = refl
plus_assoc (some a) none c = refl
plus_assoc (some a) (some b) none = refl
plus_assoc (some a) (some b) (some c) = ap some (omega arith)

module _ (amount : ContainerStats → ℕ) where
  -- What an entry, a point and points add to the total of a container.
  abbrev pub entry_total : String → String × Option ContainerStats → Option ℕ
  entry_total name (n, none) = none
  entry_total name (n, some s) =
      if str_eq n "created" then none else if str_eq n name then some (amount s) else none

  abbrev pub point_total : String → Point → Option ℕ
  point_total name [] = none
  point_total name (e ∷ es) = plus (entry_total name e) (point_total name es)

  abbrev pub total : String → List Point → Option ℕ
  total name [] = none
  total name (p ∷ ps) = plus (point_total name p) (total name ps)

plus-some : (o : Option ℕ) (amount : ℕ) → some (or_zero o + amount) ≡ plus o (some amount)
plus-some none amount = ap some (omega arith)
plus-some (some n) amount = refl

plus-none : (o : Option ℕ) → o ≡ plus o none
plus-none none = refl
plus-none (some n) = refl

get-add_to :
    (n name : String) (amount : ℕ) (d : Dict ℕ)
    → get (add_to n amount d) name ≡ plus (get d name) (if str_eq n name then some amount else none)
unfolding add_to
get-add_to n name amount d = elim (Bool-cases (str_eq n name)) [
  | inl same ↦
      rw (get-put d n name (or_zero (get d n) + amount), same, (eq_iff n name).0 same)
        (plus-some (get d name) amount)
  | inr other ↦ rw (get-put d n name (or_zero (get d n) + amount), other) (plus-none (get d name))
]

-- How the totals of a container grow from one state to another.
abbrev Grows : String → Usage → Usage → Option ℕ → Option ℕ → Option ℕ → Type 0
Grows name u u' cpu memory network =
    (get u'.cpu name ≡ plus (get u.cpu name) cpu)
    × (get u'.memory name ≡ plus (get u.memory name) memory)
    × (get u'.network name ≡ plus (get u.network name) network)

Grows-trans :
    (name : String) (u v w : Usage) (a b c a' b' c' : Option ℕ)
    → Grows name u v a b c
    → Grows name v w a' b' c'
    → Grows name u w (plus a a') (plus b b') (plus c c')
Grows-trans name u v w a b c a' b' c' g h = (
  h.0 ∙ ap (λ o. plus o a') g.0 ∙ plus_assoc (get u.cpu name) a a',
  h.1 ∙ ap (λ o. plus o b') g.1 ∙ plus_assoc (get u.memory name) b b',
  h.2 ∙ ap (λ o. plus o c') g.2 ∙ plus_assoc (get u.network name) c c',
)

Grows-refl : (name : String) (u : Usage) → Grows name u u none none none
Grows-refl name u =
    (plus-none (get u.cpu name), plus-none (get u.memory name), plus-none (get u.network name))

add_entry-Grows :
    (name : String) (e : String × Option ContainerStats) (u : Usage)
    → Grows name u
        (add_entry e u)
        (entry_total cpu_of name e)
        (entry_total memory_of name e)
        (entry_total network_of name e)
unfolding add_entry
add_entry-Grows name (n, none) u = Grows-refl name u
add_entry-Grows name (n, some s) u = elim (Bool-cases (str_eq n "created")) [
  | inl meta ↦ rw (add_entry, meta) (Grows-refl name u)
  | inr named ↦
      rw (add_entry, named)
        (
          get-add_to n name (cpu_of s) u.cpu,
          get-add_to n name (memory_of s) u.memory,
          get-add_to n name (network_of s) u.network,
        )
]

add_point-Grows :
    (name : String) (p : Point) (u : Usage)
    → Grows name u
        (add_point p u)
        (point_total cpu_of name p)
        (point_total memory_of name p)
        (point_total network_of name p)
unfolding add_point
add_point-Grows name [] u = Grows-refl name u
add_point-Grows name (e ∷ es) u =
    Grows-trans name u (add_entry e u) (add_point es (add_entry e u)) (entry_total cpu_of name e)
      (entry_total memory_of name e) (entry_total network_of name e) (point_total cpu_of name es)
      (point_total memory_of name es) (point_total network_of name es) (add_entry-Grows name e u)
      (add_point-Grows name es (add_entry e u))

add_points-Grows :
    (name : String) (ps : List Point) (u : Usage)
    → Grows name u
        (add_points ps u)
        (total cpu_of name ps)
        (total memory_of name ps)
        (total network_of name ps)
unfolding add_points
add_points-Grows name [] u = Grows-refl name u
add_points-Grows name (p ∷ ps) u =
    Grows-trans name u (add_point p u) (add_points ps (add_point p u)) (point_total cpu_of name p)
      (point_total memory_of name p) (point_total network_of name p) (total cpu_of name ps)
      (total memory_of name ps) (total network_of name ps) (add_point-Grows name p u)
      (add_points-Grows name ps (add_point p u))

-- For every container the totals of the cpu, the memory and the network are the sums of its stats
-- over all points, the entry named created left out, and there is no total for a container without
-- stats.
pub get-add_points :
    (points : List Point) (name : String)
    → (get (add_points points no_usage).cpu name ≡ total cpu_of name points)
      × (get (add_points points no_usage).memory name ≡ total memory_of name points)
      × (get (add_points points no_usage).network name ≡ total network_of name points)
unfolding get
get-add_points points name = add_points-Grows name points no_usage
