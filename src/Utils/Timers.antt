-- ===== src/Utils/Timers.antt =====
-- debounce and runOnce of internal/site/src/lib/utils.ts. Times are milliseconds.
use bezel_custom.Prelude.{
  ℕ, ◌+◌, ◌≤◌, ◌<◌, ◌≡◌, refl, Option, none, some, List, [], ◌∷◌, arith, leb, if◌then◌else◌, suc,
  zero, ap, ◌∙◌,
}

-- The pending timer with its time and the arguments, and the calls of `func`, the last one first.
pub record Debounced (A : Type 0) : Type 0 where
  pub pending : Option (ℕ × A)
  pub calls : List A

pub data Step (A : Type 0) : Type 0 where
  invokes : ℕ → A → Step A
  elapses : ℕ → Step A

module _ {A : Type 0} (wait : ℕ) where
  unfoldable pub invoke : ℕ → A → Debounced A → Debounced A
  invoke now a d = record d { pending = some (now + wait, a) }

  unfoldable pub fire : Option (ℕ × A) → ℕ → Debounced A → Debounced A
  fire none now d = d
  fire (some (due, a)) now d =
      if leb due now then record { pending = none; calls = a ∷ d.calls } else d

  unfoldable pub elapse : ℕ → Debounced A → Debounced A
  unfolding fire
  elapse now d = fire d.pending now d

  pub run : List (Step A) → Debounced A → Debounced A
  unfolding invoke elapse
  run [] d = d
  run (invokes now a ∷ rest) d = run rest (invoke now a d)
  run (elapses now ∷ rest) d = run rest (elapse now d)

  -- No time that passes between the calls reaches the timer that the last call set.
  abbrev pub IsBurst : ℕ → List (Step A) → Type 0
  IsBurst due [] = Unit
  IsBurst due (invokes now a ∷ rest) = IsBurst (now + wait) rest
  IsBurst due (elapses now ∷ rest) = (now < due) × IsBurst due rest

  -- The time and the arguments of the last call, after a first one.
  abbrev pub final : ℕ × A → List (Step A) → ℕ × A
  final p [] = p
  final p (invokes now a ∷ rest) = final (now + wait, a) rest
  final p (elapses now ∷ rest) = final p rest

  burst_pending :
      (due : ℕ) (a : A) (steps : List (Step A)) (calls : List A)
      → IsBurst due steps
      → run steps (record { pending = some (due, a); calls = calls })
        ≡ record { pending = some (final (due, a) steps); calls = calls }
  unfolding run
  burst_pending due a [] calls h = refl
  burst_pending due a (invokes now b ∷ rest) calls h = burst_pending (now + wait) b rest calls h
  burst_pending due a (elapses now ∷ rest) calls h =
      ground (arith, burst_pending due a rest calls h.1)

  -- Calls of a debounced function between which the timer is never due lead to one call of the
  -- function, with the last arguments, once the wait has passed.
  pub run_calls_once :
      (now later : ℕ) (a : A) (steps : List (Step A)) (d : Debounced A)
      → IsBurst (now + wait) steps
      → (final (now + wait, a) steps).0 ≤ later
      → elapse later (run steps (invoke now a d))
        ≡ record { pending = none; calls = (final (now + wait, a) steps).1 ∷ d.calls }
  unfolding invoke elapse
  run_calls_once now later a steps d burst late =
      ground (arith, burst_pending (now + wait) a steps d.calls burst)

-- The entry of the cache: the result once the function has returned, and how often it was run.
pub record Once (R : Type 0) : Type 0 where
  pub done : Option R
  pub runs : ℕ

-- `fn n` is what the function gives on its run number `n`, none if it throws.
module _ {R : Type 0} (fn : ℕ → Option R) where
  abbrev run_once : Option R → Once R → Once R × Option R
  run_once (some r) s = (s, some r)
  run_once none s = (record { done = fn s.runs; runs = s.runs + 1 }, fn s.runs)

  unfoldable pub once : Once R → Once R × Option R
  once s = run_once s.done s

  pub repeat : ℕ → Once R → Once R
  unfolding once
  repeat zero s = s
  repeat (suc n) s = repeat n (once s).0

  once-done : (s : Once R) (r : R) → s.done ≡ some r → once s ≡ (s, some r)
  unfolding once
  once-done s r e = rw e refl

  repeat-done : (n : ℕ) (s : Once R) (r : R) → s.done ≡ some r → repeat n s ≡ s
  unfolding repeat
  repeat-done zero s r e = refl
  repeat-done (suc n) s r e =
      ap (λ (p : Once R × Option R). repeat n p.0) (once-done s r e) ∙ repeat-done n s r e

  done-once :
      (s : Once R) (r : R)
      → (once s).1 ≡ some r
      → ((once s).0.done ≡ some r) × ((once s).0.runs ≤ s.runs + 1)
  unfolding once
  done-once s r e = ground arith

  -- Once the function has returned, a function run once returns the same result however often it
  -- is called, and is not run again; the call that got the result ran it at most once.
  pub once_stable :
      (s : Once R) (r : R) (n : ℕ)
      → (once s).1 ≡ some r
      → ((once (repeat n (once s).0)).1 ≡ some r)
        × ((repeat n (once s).0).runs ≡ (once s).0.runs)
        × ((once s).0.runs ≤ s.runs + 1)
  once_stable s r n e =
      let (kept, few) = done-once s r e in
      let same = repeat-done n (once s).0 r kept in
      (rw (same, once-done (once s).0 r kept) refl, rw same refl, few)
