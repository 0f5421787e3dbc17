-- ===== src/Alerts/Schedule.antt =====
-- batchUpdate and its timer, against a manager that would handle each message at once.
use Prim.Native.String
use bezel_custom.Prelude.{
  ℕ, ◌+◌, ◌≤◌, ◌≡◌, refl, String, Bool, true, Option, none, some, List, [], ◌∷◌, arith, str_eq,
  eq_iff, ◌||◌, if◌then◌else◌, All, leb, Bool-cases, inl, inr, ap, sym, ◌∙◌,
}
use bezel_custom.Store.{MapStore}
use bezel_custom.Dict.{Dict, get, put, get-put, IsUnique, put-IsUnique}
use bezel_custom.Alerts.{
  AlertRecord, Message, batch_key, action_fn, flush, Manager, delay, batch_update, elapse, fire,
}
use bezel_custom.Alerts.Lookup.{concerns, latest, lookup, lookup-add, lookup-remove}
use bezel_custom.Alerts.Batch.{effect, HasIdOf, IsTagged, batch_key-concerns, lookup-flush}

-- What the browser does with the manager: it delivers a message, or lets time pass.
pub data Step : Type 0 where
  receives : ℕ → Message → Step
  elapses : ℕ → Step

-- The actions that PocketBase documents.
abbrev pub is_known : Message → Bool
is_known m = str_eq m.action "create" || str_eq m.action "update" || str_eq m.action "delete"

abbrev pub IsSound : ℕ → Step → Type 0
IsSound n (receives now m) = HasIdOf n m × (is_known m ≡ true)
IsSound n (elapses now) = Unit

put-IsTagged :
    (n : ℕ) (batch : Dict Message) (m : Message)
    → HasIdOf n m
    → IsTagged n batch
    → IsTagged n (put batch (batch_key m.alert.system m.alert.name) m)
unfolding put
put-IsTagged n [] m h t = (refl, h, tt)
put-IsTagged n ((k, w) ∷ batch) m h t =
    ground (arith, put-IsTagged n batch m h t.2, eq_iff k (batch_key m.alert.system m.alert.name))

module _ (S : MapStore (Dict AlertRecord)) where
  open S use {Store}

  step : Step → Manager S → Manager S
  step (receives now m) s = batch_update S now m s
  step (elapses now) s = elapse S now s

  pub run : List Step → Manager S → Manager S
  unfolding step
  run [] s = s
  run (e ∷ es) s = run es (step e s)

  -- The reference: each message is handled when it comes.
  pub at_once : Step → Store → Store
  at_once (receives now m) s = action_fn S m.action (m.alert ∷ []) s
  at_once (elapses now) s = s

  pub all_at_once : List Step → Store → Store
  all_at_once [] s = s
  all_at_once (e ∷ es) s = all_at_once es (at_once e s)

  lookup-action_fn :
      (m : Message) (s : Store) (system name : String)
      → lookup S (action_fn S m.action (m.alert ∷ []) s) system name ≡ (
          if concerns m.alert system name
          then effect (some m) (lookup S s system name)
          else lookup S s system name)
  unfolding action_fn latest
  lookup-action_fn m s system name = ground (
    arith,
    lookup-add S (m.alert ∷ []) s system name,
    lookup-remove S (m.alert ∷ []) s system name,
  )

  -- The batch is sound, and once it is flushed the store agrees with the reference `q` on every
  -- system with an id of the right length.
  pub record Follows (n : ℕ) (s : Manager S) (q : Store) : Type 0 where
    pub unique : IsUnique s.batch
    pub tagged : IsTagged n s.batch
    pub agrees :
        (system name : String)
        → String.count system ≡ n
        → lookup S q system name
          ≡ effect (get s.batch (batch_key system name)) (lookup S s.store system name)

  receives-Follows :
      (n now : ℕ) (m : Message) (s : Manager S) (q : Store)
      → IsSound n (receives now m)
      → Follows n s q
      → Follows n (batch_update S now m s) (at_once (receives now m) q)
  unfolding batch_update at_once
  receives-Follows n now m s q sound f = record {
    unique = put-IsUnique s.batch (batch_key m.alert.system m.alert.name) m f.unique;
    tagged = put-IsTagged n s.batch m sound.0 f.tagged;
    agrees = λ system name c. ground (
      arith,
      f.agrees system name c,
      lookup-action_fn m q system name,
      get-put s.batch (batch_key m.alert.system m.alert.name) (batch_key system name) m,
      batch_key-concerns n m system name sound.0 c,
    );
  }

  flush-Follows :
      (n : ℕ) (s : Manager S) (q : Store)
      → Follows n s q
      → Follows n (record { store = flush S s.batch s.store; batch = []; timer = none }) q
  unfolding get
  flush-Follows n s q f = record {
    unique = tt;
    tagged = tt;
    agrees = λ system name c.
        f.agrees system name c
        ∙ sym (lookup-flush n system name c S s.batch s.store f.unique f.tagged);
  }

  fire-Follows :
      (timer : Option ℕ) (n now : ℕ) (s : Manager S) (q : Store)
      → Follows n s q
      → Follows n (fire S timer now s) q
  unfolding fire
  fire-Follows none n now s q f = f
  fire-Follows (some due) n now s q f = elim (Bool-cases (leb due now)) [
    | inl e ↦ rw e (flush-Follows n s q f)
    | inr e ↦ rw e f
  ]

  run-Follows :
      (n : ℕ) (es : List Step) (s : Manager S) (q : Store)
      → All (IsSound n) es
      → Follows n s q
      → Follows n (run es s) (all_at_once es q)
  unfolding run all_at_once elapse at_once
  run-Follows n [] s q sound f = f
  run-Follows n (receives now m ∷ es) s q sound f =
      run-Follows n es (batch_update S now m s) (at_once (receives now m) q) sound.1
        (receives-Follows n now m s q sound.0 f)
  run-Follows n (elapses now ∷ es) s q sound f =
      run-Follows n es (elapse S now s) q sound.1 (fire-Follows s.timer n now s q f)

  pub idle : Store → Manager S
  idle s = record { store = s; batch = []; timer = none }

  idle-Follows : (n : ℕ) (s : Store) → Follows n (idle s) s
  unfolding idle get
  idle-Follows n s = record { unique = tt; tagged = tt; agrees = λ system name c. refl }

  -- The timer that a message sets is due after the delay.
  fires :
      (now later : ℕ) (m : Message) (s : Manager S)
      → now + delay ≤ later
      → elapse S later (batch_update S now m s) ≡ record {
        store = flush S (batch_update S now m s).batch s.store;
        batch = [];
        timer = none;
      }
  unfolding elapse fire batch_update
  fires now later m s late = ground arith

  -- Take messages of the actions create, update and delete, about systems whose ids have one
  -- length, and any passing of time between them, from an empty batch. Once the delay has passed
  -- after the last message, the store has every alert of a system with an id of that length as if
  -- each message had been handled when it came.
  pub run-at_once :
      (n : ℕ) (es : List Step) (s : Store) (now later : ℕ) (m : Message)
      → All (IsSound n) es
      → IsSound n (receives now m)
      → now + delay ≤ later
      → (system name : String) → String.count system ≡ n
      → lookup S (elapse S later (batch_update S now m (run es (idle s)))).store system name
        ≡ lookup S (at_once (receives now m) (all_at_once es s)) system name
  unfolding get batch_update
  run-at_once n es s now later m sound last late system name c =
      let before : Manager S = run es (idle s) in
      let full : Manager S = batch_update S now m before in
      let f =
        receives-Follows n now m before (all_at_once es s) last
          (run-Follows n es (idle s) s sound (idle-Follows n s)) in
      ap (λ (w : Manager S). lookup S w.store system name) (fires now later m before late)
      ∙ sym (
          (flush-Follows n full (at_once (receives now m) (all_at_once es s)) f).agrees system name
            c)
