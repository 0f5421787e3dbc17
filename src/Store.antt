-- ===== src/Store.antt =====
-- The `map` stores of nanostores, which the source only calls: an interface with what the source
-- relies on. `value s k` is `store.get()[k]`; `set_key s k none` is `store.setKey(k, undefined)`.
pub mod Assoc
use mathlib.Core.List.{Memᴰ}
use bezel_custom.Prelude.{
  ◌≡◌, ◌↔◌, some, String, Bool, false, Option, none, List, [], str_eq, if◌then◌else◌,
}

pub record MapStore (V : Type 0) : Type 1 where
  pub Store : Type 0
  pub empty : Store
  pub value : Store → String → Option V
  pub set_key : Store → String → Option V → Store
  -- Object.values(store.get())
  pub values : Store → List V
  -- whether a write that replaces the first value by the second calls the listeners
  pub notifies : Option V → Option V → Bool
  pub value-empty : (k : String) → value empty k ≡ none
  pub value-set_key :
      (s : Store) (k j : String) (v : Option V)
      → value (set_key s k v) j ≡ (if str_eq k j then v else value s j)
  pub values-empty : values empty ≡ []
  -- deleting a key that is not there leaves the object as it is
  pub set_key-absent : (s : Store) (k : String) → value s k ≡ none → set_key s k none ≡ s
  pub notifies-none : notifies none none ≡ false
  pub eq_of_silent : (a b : Option V) → notifies a b ≡ false → a ≡ b
  -- the values are those of the keys
  pub mem-values : (s : Store) (v : V) → Memᴰ v (values s) ↔ ((k : String) × (value s k ≡ some v))
