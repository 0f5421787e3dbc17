-- ===== src/SystemPage/Realtime.antt =====
-- The subscription to realtime metrics in internal/site/src/components/routes/system.tsx, with its
-- answers. The runs of the effect are numbered. The server's client is a parameter of the program:
-- a listener is on from the answer to `subscribe` until its unsubscribe function is called. A log-out,
-- which drops all listeners, is not an event here.
use bezel_custom.Prelude.{
  ℕ, Bool, true, false, Option, none, some, List, [], ◌∷◌, ◌==◌, if◌then◌else◌, ◌||◌,
}

-- The run whose effect has not ended, with whether its answer came, and the listeners that are on.
pub record Feed : Type 0 where
  pub current : Option (ℕ × Bool)
  pub listeners : List ℕ

-- A run subscribes, the answer of a run arrives, and the cleanup of the current run.
pub data Event : Type 0 where
  subscribes answers : ℕ → Event
  cleans_up : Event

unfoldable pub without : ℕ → List ℕ → List ℕ
without n [] = []
without n (m ∷ ms) = let rest = without n ms in if m == n then rest else m ∷ rest

-- `unsub = us`, which the cleanup of its own run reads
abbrev note : ℕ → Option (ℕ × Bool) → Option (ℕ × Bool)
note n none = none
note n (some (m, answered)) = if m == n then some (m, true) else some (m, answered)

-- `unsub?.()`: before the answer it is a function that does nothing.
abbrev unsubscribe : Option (ℕ × Bool) → List ℕ → List ℕ
unsubscribe none ls = ls
unsubscribe (some (n, false)) ls = ls
unsubscribe (some (n, true)) ls = without n ls

unfoldable pub handle : Event → Feed → Feed
unfolding without
handle (subscribes n) f = record f { current = some (n, false) }
handle (answers n) f = record { current = note n f.current; listeners = n ∷ f.listeners }
handle cleans_up f = record { current = none; listeners = unsubscribe f.current f.listeners }

pub handle_all : List Event → Feed → Feed
unfolding handle
handle_all [] f = f
handle_all (e ∷ es) f = handle_all es (handle e f)

unfoldable pub listens : ℕ → List ℕ → Bool
listens n [] = false
listens n (m ∷ ms) = (m == n) || listens n ms

abbrev pub is_current : ℕ → Option (ℕ × Bool) → Bool
is_current n none = false
is_current n (some (m, _)) = m == n

-- No run of the list has this number.
abbrev pub subscribes_others : ℕ → List Event → Bool
subscribes_others n [] = true
subscribes_others n (subscribes m ∷ es) = if m == n then false else subscribes_others n es
subscribes_others n (answers _ ∷ es) = subscribes_others n es
subscribes_others n (cleans_up ∷ es) = subscribes_others n es
