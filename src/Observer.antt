-- ===== src/Observer.antt =====
-- internal/site/src/lib/use-intersection-observer.ts: whether an element is in view. An element is a
-- number, a ratio and a threshold are thousandths. The browser's observer is the source of the
-- notifications.
pub mod Freezing
mod Tests
use bezel_custom.Prelude.{
  ℕ, Bool, true, false, not, Option, none, some, List, [], ◌∷◌, leb, ◌==◌, ◌&&◌, if◌then◌else◌,
}

-- An entry of the browser's observer
pub record Entry : Type 0 where
  pub element : ℕ
  pub is_intersecting : Bool
  pub ratio : ℕ

pub record Options : Type 0 where
  pub thresholds : List ℕ
  pub freeze : Bool
  pub initial : Bool

-- The states and refs of the hook, and the calls of `onChange`, the last one first.
pub record Hook : Type 0 where
  pub element : Option ℕ
  pub prev : Option ℕ
  pub is_intersecting : Bool
  pub entry : Option Entry
  pub calls : List (Bool × Entry)

pub meets : List ℕ → ℕ → Bool
meets [] ratio = false
meets (t ∷ ts) ratio = let rest = meets ts ratio in if leb t ratio then true else rest

-- `prevRef.current === target`
abbrev pub is_at : Option ℕ → ℕ → Bool
is_at none x = false
is_at (some y) x = y == x

pub data Event : Type 0 where
  -- `ref` is called with an element, or with none
  sets_ref : Option ℕ → Event
  -- the browser calls the observer, if there is one
  notifies : List Entry → Event

module _ (options : Options) where
  pub begin : Hook
  begin = record {
    element = none;
    prev = none;
    is_intersecting = options.initial;
    entry = none;
    calls = [];
  }

  -- `entry.isIntersecting && thresholds.some(...)`
  pub in_view : Entry → Bool
  unfolding meets
  in_view e = e.is_intersecting && meets options.thresholds e.ratio

  -- `state.entry?.isIntersecting && freeze`
  pub frozen : Option Entry → Bool
  frozen none = false
  frozen (some e) = e.is_intersecting && options.freeze

  -- The effect that makes an observer: it has an element to observe and is not frozen.
  pub observes : Option ℕ → Option Entry → Bool
  unfolding frozen
  observes none entry = false
  observes (some x) entry = not (frozen entry)

  -- the body of `entries.forEach`; `unobserve` is never set
  pub set_entries : List Entry → Hook → Hook
  unfolding in_view
  set_entries [] h = h
  set_entries (e ∷ es) h =
      set_entries es
        (record h { is_intersecting = in_view e; entry = some e; calls = (in_view e, e) ∷ h.calls })

  -- The effect for an element that is gone.
  pub reset : Option ℕ → Option Entry → Hook → Hook
  unfolding frozen
  reset (some x) entry h = h
  reset none none h = h
  reset none (some e) h =
      if not options.freeze && not (frozen (some e)) && not (is_at h.prev e.element)
      then record h { prev = some e.element; is_intersecting = options.initial; entry = none }
      else h

  pub step : Event → Hook → Hook
  unfolding set_entries reset observes
  step (sets_ref x) h = reset x h.entry (record h { element = x })
  step (notifies es) h =
      let seen : Hook = set_entries es h in
      if observes h.element h.entry then reset seen.element seen.entry seen else h

  pub run : List Event → Hook → Hook
  unfolding step
  run [] h = h
  run (e ∷ es) h = run es (step e h)
