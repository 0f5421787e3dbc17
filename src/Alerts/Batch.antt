-- ===== src/Alerts/Batch.antt =====
-- A batch holds one message for each system and alert name, and flushing it does what that message
-- asks for.
use Prim.Native.String
use text.Mathlib.TextLemmas.{append_inj}
use bezel_custom.Prelude.{
  ℕ, ◌≡◌, refl, String, Bool, Option, none, some, List, [], ◌∷◌, arith, str_eq, eq_iff, ◌||◌,
  if◌then◌else◌,
}
use bezel_custom.Store.{MapStore}
use bezel_custom.Dict.{Dict, get, IsUnique}
use bezel_custom.Alerts.{AlertRecord, Message, batch_key, group, action_fn, run_group, flush}
use bezel_custom.Alerts.Lookup.{
  concerns, latest, or_else, unless, lookup, lookup-add, lookup-remove,
}

abbrev is_action : String → Message → Bool
is_action action m = str_eq m.action action

-- What a message makes of the alert that it is about.
abbrev pub effect : Option Message → Option AlertRecord → Option AlertRecord
effect none o = o
effect (some m) o =
    if str_eq m.action "create" || str_eq m.action "update"
    then some m.alert
    else if str_eq m.action "delete"
    then none
    else o

-- Ids of systems all have one length, `n` characters, so that two keys agree only if system and
-- name do.
abbrev pub HasIdOf : ℕ → Message → Type 0
HasIdOf n m = String.count m.alert.system ≡ n

abbrev pub IsTagged : ℕ → Dict Message → Type 0
IsTagged n [] = Unit
IsTagged n ((k, m) ∷ batch) =
    (k ≡ batch_key m.alert.system m.alert.name) × HasIdOf n m × IsTagged n batch

batch_key_inj :
    (s t a b : String)
    → String.count s ≡ String.count t
    → batch_key s a ≡ batch_key t b
    → (s ≡ t) × (a ≡ b)
unfolding batch_key
batch_key_inj s t a b c e = append_inj e c

-- A message's key is that of a system and a name exactly if it is about them.
pub batch_key-concerns :
    (n : ℕ) (m : Message) (system name : String)
    → HasIdOf n m
    → String.count system ≡ n
    → str_eq (batch_key m.alert.system m.alert.name) (batch_key system name)
      ≡ concerns m.alert system name
batch_key-concerns n m system name h c = ground (
  arith,
  batch_key_inj m.alert.system system m.alert.name name,
  eq_iff (batch_key m.alert.system m.alert.name) (batch_key system name),
  eq_iff m.alert.system system,
  eq_iff m.alert.name name,
)

-- The message for the pair, if it has the action.
abbrev chosen : String → Option Message → Option AlertRecord
chosen action none = none
chosen action (some m) = if is_action action m then some m.alert else none

-- The three groups in turn leave what the message asks for.
effect-chosen :
    (o : Option Message) (cur : Option AlertRecord)
    → unless (chosen "delete" o) (or_else (chosen "update" o) (or_else (chosen "create" o) cur))
      ≡ effect o cur
effect-chosen none cur = refl
effect-chosen (some m) cur = ground (
  arith,
  eq_iff m.action "create",
  eq_iff m.action "update",
  eq_iff m.action "delete",
  eq_iff "create" "delete",
  eq_iff "update" "delete",
)

module _ (n : ℕ) (system name : String) (c : String.count system ≡ n) where
  -- In a batch with one entry for each key, a group has a record for the pair exactly if the
  -- batch's message for it has the group's action.
  latest-group :
      (action : String) (batch : Dict Message)
      → IsUnique batch
      → IsTagged n batch
      → latest (group action batch) system name ≡ chosen action (get batch (batch_key system name))
  unfolding latest group get
  latest-group action [] u t = refl
  latest-group action ((k, m) ∷ batch) u t = ground (
    arith,
    latest-group action batch u.1 t.2,
    batch_key-concerns n m system name t.1 c,
    t.0,
    u.0,
    eq_iff k (batch_key system name),
  )

  module _ (S : MapStore (Dict AlertRecord)) where
    open S use {Store}

    lookup-create_group :
        (alerts : List AlertRecord) (s : Store)
        → lookup S (run_group S "create" alerts s) system name
          ≡ or_else (latest alerts system name) (lookup S s system name)
    unfolding run_group action_fn latest
    lookup-create_group [] s = refl
    lookup-create_group (a ∷ rest) s = lookup-add S (a ∷ rest) s system name

    lookup-update_group :
        (alerts : List AlertRecord) (s : Store)
        → lookup S (run_group S "update" alerts s) system name
          ≡ or_else (latest alerts system name) (lookup S s system name)
    unfolding run_group action_fn latest
    lookup-update_group [] s = refl
    lookup-update_group (a ∷ rest) s = lookup-add S (a ∷ rest) s system name

    lookup-delete_group :
        (alerts : List AlertRecord) (s : Store)
        → lookup S (run_group S "delete" alerts s) system name
          ≡ unless (latest alerts system name) (lookup S s system name)
    unfolding run_group action_fn latest
    lookup-delete_group [] s = refl
    lookup-delete_group (a ∷ rest) s = lookup-remove S (a ∷ rest) s system name

    -- Flushing a batch has, for each system and name, the effect of the batch's message for them.
    pub lookup-flush :
        (batch : Dict Message) (s : Store)
        → IsUnique batch
        → IsTagged n batch
        → lookup S (flush S batch s) system name
          ≡ effect (get batch (batch_key system name)) (lookup S s system name)
    unfolding flush
    lookup-flush batch s u t =
        let created : Store = run_group S "create" (group "create" batch) s in
        let updated : Store = run_group S "update" (group "update" batch) created in
        let message : Option Message = get batch (batch_key system name) in
        cc (
          lookup-delete_group (group "delete" batch) updated,
          lookup-update_group (group "update" batch) created,
          lookup-create_group (group "create" batch) s,
          latest-group "create" batch u t,
          latest-group "update" batch u t,
          latest-group "delete" batch u t,
          effect-chosen message (lookup S s system name),
        )
