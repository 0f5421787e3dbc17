-- ===== src/Systems/Writes.antt =====
-- What each function of the systems manager leaves under each key of each store.
use bezel_custom.Prelude.{
  ◌≡◌, refl, String, Bool, true, false, Option, none, some, arith, str_eq, eq_iff, if◌then◌else◌,
  eq_refl, ap,
}
use bezel_custom.Store.{MapStore}
use bezel_custom.Systems.{
  SystemStatus, up, down, pending, paused, SystemRecord, State, on_systems_changed, purge,
  file_by_status, listener, set_by_id, unlist,
}

-- Whether a record of status `t` goes to the store of status `st`. Pending systems have no store.
abbrev pub has_store : SystemStatus → SystemStatus → Bool
has_store up up = true
has_store down down = true
has_store paused paused = true
has_store _ _ = false

-- The part of a status store that a record accounts for: itself under its own status.
abbrev pub filed : SystemStatus → Option SystemRecord → Option SystemRecord
filed st none = none
filed st (some r) = if has_store st r.status then some r else none

-- The record under a key is the one that the write is about.
abbrev pub IsKeyed : String → Option SystemRecord → Type 0
IsKeyed key none = Unit
IsKeyed key (some r) = r.id ≡ key

module _ (S : MapStore SystemRecord) where
  open S use {Store, empty, value, set_key, notifies, value-empty, value-set_key, eq_of_silent}

  abbrev pub status_store : SystemStatus → State S → Store
  status_store up s = s.up_systems
  status_store down s = s.down_systems
  status_store paused s = s.paused_systems
  status_store pending s = empty

  value-file_by_status :
      (st t : SystemStatus) (new : SystemRecord) (s : State S) (j : String)
      → value (status_store st (file_by_status S t new s)) j ≡ (
          if str_eq new.id j
          then (if has_store st t then some new else none)
          else value (status_store st s) j)
  unfolding file_by_status
  value-file_by_status up up new s j = value-set_key s.up_systems new.id j (some new)
  value-file_by_status up _ new s j = value-set_key s.up_systems new.id j none
  value-file_by_status down down new s j = value-set_key s.down_systems new.id j (some new)
  value-file_by_status down _ new s j = value-set_key s.down_systems new.id j none
  value-file_by_status paused paused new s j = value-set_key s.paused_systems new.id j (some new)
  value-file_by_status paused _ new s j = value-set_key s.paused_systems new.id j none
  value-file_by_status pending up new s j = ground (arith, value-empty j)
  value-file_by_status pending _ new s j = ground (arith, value-empty j)

  value-purge :
      (st : SystemStatus) (old : SystemRecord) (s : State S) (j : String)
      → value (status_store st (purge S old s)) j
        ≡ (if str_eq old.id j then none else value (status_store st s) j)
  unfolding purge
  value-purge up old s j = value-set_key s.up_systems old.id j none
  value-purge down old s j = value-set_key s.down_systems old.id j none
  value-purge paused old s j = value-set_key s.paused_systems old.id j none
  value-purge pending old s j = ground (arith, value-empty j)

  -- The name length and the icon are no part of the stores.
  status_store-on_systems_changed :
      (st : SystemStatus) (c : Option SystemRecord) (s : State S)
      → status_store st (on_systems_changed S c s) ≡ status_store st s
  unfolding on_systems_changed
  status_store-on_systems_changed up c s = refl
  status_store-on_systems_changed down c s = refl
  status_store-on_systems_changed paused c s = refl
  status_store-on_systems_changed pending c s = refl

  -- After the listener has run, a status store holds the new record if it has that status, and is
  -- unchanged under other keys.
  value-listener :
      (st : SystemStatus) (key : String) (old new : Option SystemRecord) (s : State S) (j : String)
      → IsKeyed key old
      → IsKeyed key new
      → (old ≡ none → value (status_store st s) key ≡ none)
      → value (status_store st (listener S old new s)) j
        ≡ (if str_eq key j then filed st new else value (status_store st s) j)
  unfolding listener
  value-listener st key none none s j p q h =
      rw (status_store-on_systems_changed st none s) (ground (arith, eq_iff key j, h refl))
  value-listener st key (some old) none s j p q h =
      rw (status_store-on_systems_changed st none (purge S old s))
        (ground (arith, value-purge st old s j))
  value-listener st key old (some new) s j p q h =
      rw (status_store-on_systems_changed st (some new) (file_by_status S new.status new s))
        (ground (arith, value-file_by_status st new.status new s j))

  by_id-file_by_status :
      (t : SystemStatus) (new : SystemRecord) (s : State S)
      → (file_by_status S t new s).by_id ≡ s.by_id
  unfolding file_by_status
  by_id-file_by_status up new s = refl
  by_id-file_by_status _ new s = refl

  by_id-listener :
      (key : String) (old new : Option SystemRecord) (s : State S) (j : String)
      → IsKeyed key old
      → value s.by_id key ≡ new
      → value (listener S old new s).by_id j ≡ value s.by_id j
  unfolding listener on_systems_changed purge file_by_status
  by_id-listener key none none s j p h = refl
  by_id-listener key (some old) none s j p h =
      ground (arith, value-set_key s.by_id old.id j none, eq_iff key j, eq_iff old.id j)
  by_id-listener key old (some new) s j p h =
      ap (λ (t : Store). value t j) (by_id-file_by_status new.status new s)

  -- What `$allSystemsById.setKey(key, new)` leaves in that store.
  pub by_id-set_by_id :
      (key : String) (new : Option SystemRecord) (s : State S) (j : String)
      → IsKeyed key (value s.by_id key)
      → value (set_by_id S key new s).by_id j ≡ (if str_eq key j then new else value s.by_id j)
  unfolding set_by_id
  by_id-set_by_id key new s j p = ground (
    arith,
    by_id-listener key (value s.by_id key) new (record s { by_id = set_key s.by_id key new }) j,
    value-set_key s.by_id key j new,
    value-set_key s.by_id key key new,
    eq_refl key,
  )

  -- What it leaves in a status store, whether or not the listener was called.
  pub status_store-set_by_id :
      (st : SystemStatus) (key : String) (new : Option SystemRecord) (s : State S) (j : String)
      → s.initialized ≡ true
      → IsKeyed key (value s.by_id key)
      → IsKeyed key new
      → value (status_store st s) key ≡ filed st (value s.by_id key)
      → value (status_store st (set_by_id S key new s)) j
        ≡ (if str_eq key j then filed st new else value (status_store st s) j)
  unfolding set_by_id
  status_store-set_by_id st key new s j i p q h = ground (
    arith,
    value-listener st key (value s.by_id key) new (record s { by_id = set_key s.by_id key new }) j p
        q,
    eq_of_silent (value s.by_id key) new,
    eq_iff key j,
  )

  -- The fields that the listener does not write.
  pub by_name-set_by_id :
      (key : String) (new : Option SystemRecord) (s : State S)
      → ((set_by_id S key new s).by_name ≡ s.by_name)
        × ((set_by_id S key new s).initialized ≡ s.initialized)
  unfolding set_by_id listener on_systems_changed purge file_by_status
  by_name-set_by_id key new s = ground arith

  pub value-unlist :
      (st : SystemStatus) (r : SystemRecord) (s : State S) (j : String)
      → value (status_store st (unlist S r s)) j
        ≡ (if str_eq r.id j then none else value (status_store st s) j)
  unfolding unlist
  value-unlist up r s j = value-set_key s.up_systems r.id j none
  value-unlist down r s j = value-set_key s.down_systems r.id j none
  value-unlist paused r s j = value-set_key s.paused_systems r.id j none
  value-unlist pending r s j = ground (arith, value-empty j)

  pub by_id-unlist :
      (r : SystemRecord) (s : State S)
      → ((unlist S r s).by_id ≡ s.by_id)
        × ((unlist S r s).by_name ≡ s.by_name)
        × ((unlist S r s).initialized ≡ s.initialized)
  unfolding unlist
  by_id-unlist r s = (refl, refl, refl)
