-- ===== src/Toasts/Timers.antt =====
-- Which toasts have a timer.
use bezel_custom.Prelude.{
  ℕ, ◌+◌, ◌≤◌, ◌<◌, ◌≡◌, refl, String, true, false, not, none, some, List, [], ◌∷◌, ◌==◌, ◌||◌,
  ◌&&◌, keep, All, All-imp, All-both, All-map, All-keep, arith, subst, ==_iff, Bool-cases, inl, inr,
}
use bezel_custom.Toasts.{
  Toast, State, max_safe_integer, has_timer, add_to_remove_queue, queue_all, close, changed, Change,
  dismiss_toast, update_toast, toast, expire, gen_id,
}

-- A toast is closed exactly if it has a timer, and no id is past the count.
abbrev pub IsTimed : ℕ → List (ℕ × ℕ) → Toast → Type 0
IsTimed count timeouts t = (has_timer t.id timeouts ≡ not t.is_open) × (t.id ≤ count)

abbrev pub IsTidy : State → Type 0
IsTidy s = All (IsTimed s.count s.timeouts) s.toasts × All (λ timer. timer.0 ≤ s.count) s.timeouts

has_timer-fresh :
    (id count : ℕ) (timeouts : List (ℕ × ℕ))
    → All (λ timer. timer.0 ≤ count) timeouts
    → count < id
    → has_timer id timeouts ≡ false
unfolding has_timer
has_timer-fresh id count [] h lt = refl
has_timer-fresh id count ((j, due) ∷ rest) h lt =
    ground (arith, has_timer-fresh id count rest h.1 lt)

pub has_timer-add :
    (now id j : ℕ) (timeouts : List (ℕ × ℕ))
    → has_timer j (add_to_remove_queue now id timeouts) ≡ (id == j || has_timer j timeouts)
unfolding add_to_remove_queue has_timer
has_timer-add now id j timeouts = ground arith

has_timer-queue_all :
    (now : ℕ) (ts : List Toast) (timeouts : List (ℕ × ℕ)) (j : ℕ)
    → has_timer j timeouts ≡ true
    → has_timer j (queue_all now ts timeouts) ≡ true
unfolding queue_all
has_timer-queue_all now [] timeouts j h = h
has_timer-queue_all now (t ∷ ts) timeouts j h =
    has_timer-queue_all now ts (add_to_remove_queue now t.id timeouts) j
      (ground (arith, has_timer-add now t.id j timeouts))

pub queue_all-has_timer :
    (now : ℕ) (ts : List Toast) (timeouts : List (ℕ × ℕ))
    → All (λ t. has_timer t.id (queue_all now ts timeouts) ≡ true) ts
unfolding queue_all
queue_all-has_timer now [] timeouts = tt
queue_all-has_timer now (t ∷ ts) timeouts = (
  has_timer-queue_all now ts (add_to_remove_queue now t.id timeouts) t.id
      (ground (arith, has_timer-add now t.id t.id timeouts)),
  queue_all-has_timer now ts (add_to_remove_queue now t.id timeouts),
)

has_timer-keep :
    (id j : ℕ) (timeouts : List (ℕ × ℕ))
    → has_timer j (keep (λ timer. not (timer.0 == id)) timeouts)
      ≡ (not (id == j) && has_timer j timeouts)
unfolding has_timer
has_timer-keep id j [] = ground arith
has_timer-keep id j ((i, due) ∷ rest) = ground (arith, has_timer-keep id j rest)

module _ (count : ℕ) where
  abbrev IsBounded : List (ℕ × ℕ) → Type 0
  IsBounded = All (λ timer. timer.0 ≤ count)

  add-IsBounded :
      (now id : ℕ) (timeouts : List (ℕ × ℕ))
      → id ≤ count
      → IsBounded timeouts
      → IsBounded (add_to_remove_queue now id timeouts)
  unfolding add_to_remove_queue
  add-IsBounded now id timeouts le h = elim (Bool-cases (has_timer id timeouts)) [
    | inl there ↦ rw there h
    | inr absent ↦ rw absent (le, h)
  ]

  queue_all-IsBounded :
      (now : ℕ) (ts : List Toast) (timeouts : List (ℕ × ℕ))
      → All (λ t. t.id ≤ count) ts
      → IsBounded timeouts
      → IsBounded (queue_all now ts timeouts)
  unfolding queue_all
  queue_all-IsBounded now [] timeouts ht h = h
  queue_all-IsBounded now (t ∷ ts) timeouts ht h =
      queue_all-IsBounded now ts (add_to_remove_queue now t.id timeouts) ht.1
        (add-IsBounded now t.id timeouts ht.0 h)

pub toast-IsTidy :
    (title : String) (s : State)
    → s.count + 1 < max_safe_integer
    → IsTidy s
    → IsTidy (toast title s)
unfolding toast gen_id
toast-IsTidy title s lt h =
    let next : gen_id s.count ≡ s.count + 1 = omega arith in
    rw next (
      ((has_timer-fresh (s.count + 1) s.count s.timeouts h.1 (omega arith), omega arith), tt),
      All-imp (λ timer. timer.0 ≤ s.count) (λ timer. timer.0 ≤ s.count + 1) s.timeouts
          (λ timer le. omega arith) h.1,
    )

changed-IsTimed :
    (count : ℕ) (timeouts : List (ℕ × ℕ)) (c : Change) (t : Toast)
    → c.is_open ≡ none
    → IsTimed count timeouts t
    → IsTimed count timeouts (changed c t)
changed-IsTimed count timeouts c t e timed = elim (Bool-cases (t.id == c.id)) [
  | inl same ↦
      rw (same, e)
        (subst (λ i. (has_timer i timeouts ≡ not t.is_open) × (i ≤ count))
          ((==_iff t.id c.id).0 same) timed)
  | inr other ↦ rw other timed
]

pub update_toast-IsTidy :
    (c : Change) (s : State) → c.is_open ≡ none → IsTidy s → IsTidy (update_toast c s)
unfolding update_toast
update_toast-IsTidy c s e h = (
  All-map (IsTimed s.count s.timeouts) (IsTimed s.count s.timeouts) (changed c) s.toasts
      (λ t timed. changed-IsTimed s.count s.timeouts c t e timed) h.0,
  h.1,
)

pub dismiss_one-IsTidy :
    (now id : ℕ) (s : State) → id ≤ s.count → IsTidy s → IsTidy (dismiss_toast now (some id) s)
unfolding dismiss_toast
dismiss_one-IsTidy now id s le h = (
  All-map (IsTimed s.count s.timeouts) (IsTimed s.count (add_to_remove_queue now id s.timeouts))
      (close (some id)) s.toasts (λ t timed. ground (arith, has_timer-add now id t.id s.timeouts))
      h.0,
  add-IsBounded s.count now id s.timeouts le h.1,
)

toasts-bounded : (s : State) → IsTidy s → All (λ t. t.id ≤ s.count) s.toasts
toasts-bounded s h =
    All-imp (IsTimed s.count s.timeouts) (λ t. t.id ≤ s.count) s.toasts (λ t timed. timed.1) h.0

pub dismiss_all-IsTidy : (now : ℕ) (s : State) → IsTidy s → IsTidy (dismiss_toast now none s)
unfolding dismiss_toast
dismiss_all-IsTidy now s h = (
  All-map (λ t. (t.id ≤ s.count) × (has_timer t.id (queue_all now s.toasts s.timeouts) ≡ true))
      (IsTimed s.count (queue_all now s.toasts s.timeouts)) (close none) s.toasts
      (λ t both. (both.1, both.0))
      (All-both (λ t. t.id ≤ s.count)
        (λ t. has_timer t.id (queue_all now s.toasts s.timeouts) ≡ true) s.toasts
        (toasts-bounded s h) (queue_all-has_timer now s.toasts s.timeouts)),
  queue_all-IsBounded s.count now s.toasts s.timeouts (toasts-bounded s h) h.1,
)

pub expire-IsTidy : (id : ℕ) (s : State) → IsTidy s → IsTidy (expire id s)
unfolding expire
expire-IsTidy id s h = (
  All-keep (IsTimed s.count s.timeouts)
      (IsTimed s.count (keep (λ timer. not (timer.0 == id)) s.timeouts)) (λ t. not (t.id == id))
      s.toasts (λ t kept timed. ground (arith, has_timer-keep id t.id s.timeouts)) h.0,
  All-keep (λ timer. timer.0 ≤ s.count) (λ timer. timer.0 ≤ s.count) (λ timer. not (timer.0 == id))
      s.timeouts (λ timer kept le. le) h.1,
)
