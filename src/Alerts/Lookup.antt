-- ===== src/Alerts/Lookup.antt =====
-- What a system's alert of a given name is after add and remove.
use bezel_custom.Prelude.{
  ◌≡◌, refl, String, Bool, Option, none, some, List, [], ◌∷◌, arith, str_eq, eq_iff, ◌&&◌,
  if◌then◌else◌,
}
use bezel_custom.Store.{MapStore}
use bezel_custom.Dict.{Dict, get, put, delete, get-put, get-delete}
use bezel_custom.Alerts.{AlertRecord, or_new, add_one, add, remove_one, remove}

abbrev pub concerns : AlertRecord → String → String → Bool
concerns a system name = str_eq a.system system && str_eq a.name name

-- The last record of a list for a system and a name.
unfoldable pub latest : List AlertRecord → String → String → Option AlertRecord
latest [] system name = none
latest (a ∷ rest) system name = elim (latest rest system name) [
  | some b ↦ some b
  | none ↦ if concerns a system name then some a else none
]

abbrev pub or_else : Option AlertRecord → Option AlertRecord → Option AlertRecord
or_else (some a) o = some a
or_else none o = o

-- Nothing, where the first is there.
abbrev pub unless : Option AlertRecord → Option AlertRecord → Option AlertRecord
unless (some a) o = none
unless none o = o

module _ (S : MapStore (Dict AlertRecord)) where
  open S use {Store, value, set_key, value-set_key}

  -- `$alerts.get()[system]?.get(name)`
  pub lookup : Store → String → String → Option AlertRecord
  lookup s system name = get (or_new (value s system)) name

  lookup-add_one :
      (a : AlertRecord) (s : Store) (system name : String)
      → lookup (add_one S a s) system name
        ≡ (if concerns a system name then some a else lookup s system name)
  unfolding lookup add_one
  lookup-add_one a s system name = ground (
    arith,
    value-set_key s a.system system (some (put (or_new (value s a.system)) a.name a)),
    get-put (or_new (value s a.system)) a.name name a,
    eq_iff a.system system,
    eq_iff a.name name,
  )

  lookup-remove_one :
      (a : AlertRecord) (s : Store) (system name : String)
      → lookup (remove_one S a s) system name
        ≡ (if concerns a system name then none else lookup s system name)
  unfolding lookup remove_one
  lookup-remove_one a s system name = ground (
    arith,
    value-set_key s a.system system (some (delete (or_new (value s a.system)) a.name)),
    get-delete (or_new (value s a.system)) a.name name,
    eq_iff a.system system,
    eq_iff a.name name,
  )

  -- After add, the alert of a system with a given name is the last one in the list for both, or
  -- what it was if there is none.
  pub lookup-add :
      (alerts : List AlertRecord) (s : Store) (system name : String)
      → lookup (add S alerts s) system name
        ≡ or_else (latest alerts system name) (lookup s system name)
  unfolding add latest
  lookup-add [] s system name = refl
  lookup-add (a ∷ rest) s system name =
      ground (arith, lookup-add rest (add_one S a s) system name, lookup-add_one a s system name)

  -- After remove, the alert of a system with a given name is gone if the list has one for both,
  -- and what it was if not.
  pub lookup-remove :
      (alerts : List AlertRecord) (s : Store) (system name : String)
      → lookup (remove S alerts s) system name
        ≡ unless (latest alerts system name) (lookup s system name)
  unfolding remove latest
  lookup-remove [] s system name = refl
  lookup-remove (a ∷ rest) s system name =
      ground (
        arith,
        lookup-remove rest (remove_one S a s) system name,
        lookup-remove_one a s system name,
      )
