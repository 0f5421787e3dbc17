-- ===== src/SystemsTable/Indicators.antt =====
-- The dots of the disks besides the root disk: one for each state that one of them has.
use bezel_custom.Prelude.{
  ℕ, ◌≡◌, refl, ◌∙◌, sym, subst, Bool, true, false, not, List, [], ◌∷◌, ◌++◌, map, arith, leb, ◌==◌,
  ◌||◌, if◌then◌else◌, Option, String, Bool-cases, inl, inr,
}
use bezel_custom.Utils.Meter.{MeterState, good, warn, crit, get_meter_state, severity}
use bezel_custom.SystemsTable.{Row, Color, is_up, state_color}

-- `Object.entries(efs).sort((a, b) => b[1] - a[1])`
pub insert_disk : String × ℕ → List (String × ℕ) → List (String × ℕ)
insert_disk d [] = d ∷ []
insert_disk d (e ∷ es) = let rest = insert_disk d es in if leb e.1 d.1 then d ∷ e ∷ es else e ∷ rest

pub sort_disks : List (String × ℕ) → List (String × ℕ)
unfolding insert_disk
sort_disks [] = []
sort_disks (d ∷ ds) = insert_disk d (sort_disks ds)

-- `new Set(states)`
pub occurs : MeterState → List MeterState → Bool
occurs x [] = false
occurs x (y ∷ ys) = let rest = occurs x ys in if severity x == severity y then true else rest

pub distinct_onto : List MeterState → List MeterState → List MeterState
unfolding occurs
distinct_onto seen [] = seen
distinct_onto seen (x ∷ xs) = distinct_onto (if occurs x seen then seen else seen ++ x ∷ []) xs

-- `sort()`, of numbers of one digit
pub insert_state : MeterState → List MeterState → List MeterState
insert_state x [] = x ∷ []
insert_state x (y ∷ ys) =
    let rest = insert_state x ys in if leb (severity x) (severity y) then x ∷ y ∷ ys else y ∷ rest

pub sort_states : List MeterState → List MeterState
unfolding insert_state
sort_states [] = []
sort_states (x ∷ xs) = insert_state x (sort_states xs)

pub disk_states : Option ℕ → Option ℕ → Row → List MeterState
unfolding sort_disks get_meter_state
disk_states color_warn color_crit row =
    map (λ d. get_meter_state color_warn color_crit d.1) (sort_disks row.efs)

unfoldable pub extra_disk_indicators : Option ℕ → Option ℕ → Row → List Color
unfolding is_up state_color disk_states distinct_onto sort_states
extra_disk_indicators color_warn color_crit row =
    if not (is_up row.status)
    then []
    else map state_color (sort_states (distinct_onto [] (disk_states color_warn color_crit row)))

-- The states, in the order of their severity, that a test has.
abbrev pub those : Bool → Bool → Bool → List MeterState
those g w c =
    (if g then good ∷ [] else []) ++ (if w then warn ∷ [] else []) ++ (if c then crit ∷ [] else [])

abbrev IsDistinct : List MeterState → Type 0
IsDistinct [] = Unit
IsDistinct (x ∷ xs) = (occurs x xs ≡ false) × IsDistinct xs

insert_those :
    (x : MeterState) (g w c : Bool)
    → (elim x [ good ↦ g | warn ↦ w | crit ↦ c ]) ≡ false
    → insert_state x (those g w c)
      ≡ those (severity x == 0 || g) (severity x == 1 || w) (severity x == 2 || c)
unfolding insert_state
insert_those good true w c h = cc
insert_those good false false false h = refl
insert_those good false false true h = refl
insert_those good false true false h = refl
insert_those good false true true h = refl
insert_those warn g true c h = cc
insert_those warn false false false h = refl
insert_those warn false false true h = refl
insert_those warn true false false h = refl
insert_those warn true false true h = refl
insert_those crit g w true h = cc
insert_those crit false false false h = refl
insert_those crit false true false h = refl
insert_those crit true false false h = refl
insert_those crit true true false h = refl

abbrev pub these : List MeterState → List MeterState
these xs = those (occurs good xs) (occurs warn xs) (occurs crit xs)

insert_these :
    (x : MeterState) (xs : List MeterState)
    → occurs x xs ≡ false
    → insert_state x (these xs) ≡ these (x ∷ xs)
unfolding occurs
insert_these good xs h = insert_those good (occurs good xs) (occurs warn xs) (occurs crit xs) h
insert_these warn xs h = insert_those warn (occurs good xs) (occurs warn xs) (occurs crit xs) h
insert_these crit xs h = insert_those crit (occurs good xs) (occurs warn xs) (occurs crit xs) h

sort_distinct : (xs : List MeterState) → IsDistinct xs → sort_states xs ≡ these xs
unfolding sort_states occurs
sort_distinct [] d = refl
sort_distinct (x ∷ xs) (fresh, d) = rw (sort_distinct xs d) (insert_these x xs fresh)

occurs-append :
    (x : MeterState) (xs ys : List MeterState) → occurs x (xs ++ ys) ≡ (occurs x xs || occurs x ys)
unfolding occurs
occurs-append x [] ys = refl
occurs-append x (y ∷ xs) ys = ground (arith, occurs-append x xs ys)

append-IsDistinct :
    (xs : List MeterState) (x : MeterState)
    → IsDistinct xs
    → occurs x xs ≡ false
    → IsDistinct (xs ++ x ∷ [])
unfolding occurs
append-IsDistinct [] x d h = (refl, tt)
append-IsDistinct (y ∷ xs) x d h = (
  ground (arith, occurs-append y xs (x ∷ []), d.0, h),
  append-IsDistinct xs x d.1 (ground (arith, h)),
)

same_state : (x y : MeterState) → (severity x == severity y) ≡ true → x ≡ y
same_state good good e = refl
same_state good warn e = cc
same_state good crit e = cc
same_state warn good e = cc
same_state warn warn e = refl
same_state warn crit e = cc
same_state crit good e = cc
same_state crit warn e = cc
same_state crit crit e = refl

seen_again :
    (x y : MeterState) (seen xs : List MeterState)
    → occurs y seen ≡ true
    → (occurs x seen || occurs x xs) ≡ (occurs x seen || occurs x (y ∷ xs))
unfolding occurs
seen_again x y seen xs there = elim (Bool-cases (severity x == severity y)) [
  | inl same ↦
      let known : occurs x seen ≡ true =
        subst (λ z. occurs z seen ≡ true) (sym (same_state x y same)) there in
      rw known refl
  | inr other ↦ rw other refl
]

distinct_onto_lem :
    (seen xs : List MeterState)
    → IsDistinct seen
    → IsDistinct (distinct_onto seen xs)
      × ((x : MeterState) → occurs x (distinct_onto seen xs) ≡ (occurs x seen || occurs x xs))
unfolding distinct_onto occurs
distinct_onto_lem seen [] d = (d, λ x. ground arith)
distinct_onto_lem seen (y ∷ xs) d = elim (Bool-cases (occurs y seen)) [
  | inl there ↦
      let (rest, same) = distinct_onto_lem seen xs d in
      rw there (rest, λ x. same x ∙ seen_again x y seen xs there)
  | inr absent ↦
      let (rest, same) =
        distinct_onto_lem (seen ++ y ∷ []) xs (append-IsDistinct seen y d absent) in
      rw absent (rest, λ x. same x ∙ ground (arith, occurs-append x seen (y ∷ [])))
]

-- A system that is up has one dot for each meter state that one of its extra disks has, in the
-- order of good, warning and critical, and no other system has a dot.
pub extra_disk_indicators_lem :
    (color_warn color_crit : Option ℕ) (row : Row)
    → extra_disk_indicators color_warn color_crit row ≡ (
        if is_up row.status
        then map state_color (these (disk_states color_warn color_crit row))
        else [])
unfolding extra_disk_indicators occurs
extra_disk_indicators_lem color_warn color_crit row =
    let states : List MeterState = disk_states color_warn color_crit row in
    let (distinct, same) = distinct_onto_lem [] states tt in
    let sorted : sort_states (distinct_onto [] states) ≡ these states =
      sort_distinct (distinct_onto [] states) distinct
      ∙ rw (same good, same warn, same crit) refl in
    rw sorted
      (elim (Bool-cases (is_up row.status)) [ inl there ↦ rw there refl | inr away ↦ rw away refl ])
