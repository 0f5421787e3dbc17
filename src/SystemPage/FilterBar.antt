-- ===== src/SystemPage/FilterBar.antt =====
-- FilterBar of internal/site/src/components/routes/system.tsx: a field whose text reaches the store
-- of the filter after 80 ms. Times are milliseconds.
use bezel_custom.Prelude.{
  ℕ, ◌-◌, ◌≤◌, ◌≡◌, refl, String, Option, none, some, List, [], ◌∷◌, arith, leb, str_eq, eq_iff,
  if◌then◌else◌, Bool-cases, inl, inr,
}

-- The text of the field, that of the store, and what is left of the timer that sets the store.
pub record FilterBar : Type 0 where
  pub input : String
  pub stored : String
  pub timer : Option ℕ

-- A change of the field, the click that clears it, a change of the store by another bar or by the
-- page, and time that passes.
pub data Event : Type 0 where
  changes sets_elsewhere : String → Event
  clears : Event
  waits : ℕ → Event

-- The effect on the texts of the field and of the store.
unfoldable pub schedule : String → String → FilterBar
schedule input stored = record {
  input = input;
  stored = stored;
  timer = if str_eq input stored then none else some 80;
}

abbrev level : String → FilterBar
level text = record { input = text; stored = text; timer = none }

unfoldable pub wait : ℕ → Option ℕ → FilterBar → FilterBar
wait n none bar = bar
wait n (some left) bar =
    if leb left n then level bar.input else record bar { timer = some (left - n) }

-- A text that is the same as before runs no effect.
unfoldable pub handle : Event → FilterBar → FilterBar
unfolding schedule wait
handle (changes text) bar = if str_eq text bar.input then bar else schedule text bar.stored
handle (sets_elsewhere text) bar = if str_eq text bar.stored then bar else level text
handle clears bar = level ""
handle (waits n) bar = wait n bar.timer bar

unfoldable pub handle_all : List Event → FilterBar → FilterBar
unfolding handle
handle_all [] bar = bar
handle_all (e ∷ es) bar = handle_all es (handle e bar)

-- The field and the store differ only while a timer runs, which has at most 80 ms left.
abbrev pub IsPending : FilterBar → Type 0
IsPending bar = elim bar.timer [ none ↦ bar.input ≡ bar.stored | some left ↦ left ≤ 80 ]

schedule-IsPending : (input stored : String) → IsPending (schedule input stored)
unfolding schedule
schedule-IsPending input stored = elim (Bool-cases (str_eq input stored)) [
  | inl same ↦ rw same ((eq_iff input stored).0 same)
  | inr different ↦ rw different (omega arith)
]

wait-IsPending :
    (n : ℕ) (timer : Option ℕ) (bar : FilterBar)
    → bar.timer ≡ timer
    → IsPending bar
    → IsPending (wait n timer bar)
unfolding wait
wait-IsPending n none bar e h = h
wait-IsPending n (some left) bar e h = ground (arith, e, h)

handle-IsPending : (e : Event) (bar : FilterBar) → IsPending bar → IsPending (handle e bar)
unfolding handle
handle-IsPending (changes text) bar h = elim (Bool-cases (str_eq text bar.input)) [
  | inl same ↦ rw same h
  | inr different ↦ rw different (schedule-IsPending text bar.stored)
]
handle-IsPending (sets_elsewhere text) bar h = elim (Bool-cases (str_eq text bar.stored)) [
  | inl same ↦ rw same h
  | inr different ↦ rw different refl
]
handle-IsPending clears bar h = refl
handle-IsPending (waits n) bar h = wait-IsPending n bar.timer bar refl h

handle_all-IsPending :
    (es : List Event) (bar : FilterBar) → IsPending bar → IsPending (handle_all es bar)
unfolding handle_all
handle_all-IsPending [] bar h = h
handle_all-IsPending (e ∷ es) bar h =
    handle_all-IsPending es (handle e bar) (handle-IsPending e bar h)

wait_out :
    (n : ℕ) (timer : Option ℕ) (bar : FilterBar)
    → bar.timer ≡ timer
    → 80 ≤ n
    → IsPending bar
    → ((wait n timer bar).stored ≡ bar.input) × ((wait n timer bar).input ≡ bar.input)
unfolding wait
wait_out n none bar e long h = ground (arith, e, h)
wait_out n (some left) bar e long h = ground (arith, e, h)

-- Whatever happened to a filter bar whose field showed the text of the store, once 80 ms pass with
-- nothing else happening, the store has the text that the field had, and the field keeps it.
pub handle_all-settles :
    (es : List Event) (bar : FilterBar) (n : ℕ)
    → bar.input ≡ bar.stored
    → bar.timer ≡ none
    → 80 ≤ n
    → ((handle (waits n) (handle_all es bar)).stored ≡ (handle_all es bar).input)
      × ((handle (waits n) (handle_all es bar)).input ≡ (handle_all es bar).input)
unfolding handle
handle_all-settles es bar n same idle long =
    let pending : IsPending bar = rw idle same in
    wait_out n (handle_all es bar).timer (handle_all es bar) refl long
      (handle_all-IsPending es bar pending)
