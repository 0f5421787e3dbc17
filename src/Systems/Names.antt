-- ===== src/Systems/Names.antt =====
-- The store by name against the store by id.
use bezel_custom.Prelude.{◌≡◌, ◌≢◌, refl, String, some, arith, eq_iff, eq_refl}
use bezel_custom.Store.{MapStore}
use bezel_custom.Systems.{
  throws, valid, Checked, renamed, SystemRecord, State, add, update, remove, old_name,
  validate_system_info,
}
use bezel_custom.Systems.Sync.{IsSynced}
use bezel_custom.Systems.Effects.{
  add_throws, by_id-add, by_name-add, by_id-update, by_name-update, by_id-remove, by_name-remove,
}

module _ (S : MapStore SystemRecord) where
  open S use {Store, value}

  -- Every system of the store by name stands under its name, and is the current record of its id.
  pub record IsIndexed (s : State S) : Type 0 where
    pub named : (k : String) (r : SystemRecord) → value s.by_name k ≡ some r → r.name ≡ k
    pub current :
        (k : String) (r : SystemRecord) → value s.by_name k ≡ some r → value s.by_id r.id ≡ some r

  module _ (r : SystemRecord) (s : State S) (h : IsSynced S s) (x : IsIndexed s) where
    update-IsIndexed_valid : validate_system_info r ≡ valid → IsIndexed (update S r s)
    unfolding renamed old_name
    update-IsIndexed_valid v = record {
      named = λ k q e. ground (arith, by_name-update S r s h v k, x.named k q, eq_iff r.name k);
      current = λ k q e. ground (
        arith,
        by_name-update S r s h v k,
        by_id-update S r s h v q.id,
        x.current k q,
        x.named k q,
        eq_iff r.name k,
        eq_iff r.id q.id,
        eq_iff q.name r.name,
        eq_refl k,
        eq_iff q.name k,
      );
    }

    update-IsIndexed_checked : (c : Checked) → validate_system_info r ≡ c → IsIndexed (update S r s)
    update-IsIndexed_checked throws e = rw ((add_throws S r s e).1) x
    update-IsIndexed_checked valid e = update-IsIndexed_valid e

    -- If the listener of the store by id is set, every record of that store stands under its id,
    -- and each status store holds exactly the records of its status, and if every entry of the
    -- store by name stands under its name and is the current record of its id, then every entry of
    -- the store by name does so after an update, whether or not it renames the system and whether
    -- or not the record is valid.
    pub update-IsIndexed : IsIndexed (update S r s)
    update-IsIndexed = update-IsIndexed_checked (validate_system_info r) refl

    -- A delete keeps every entry of the store by name under its name and current, if the deleted
    -- record has the name that is known for its id.
    pub remove-IsIndexed :
        ((o : SystemRecord) → value s.by_id r.id ≡ some o → o.name ≡ r.name)
        → IsIndexed (remove S r s)
    remove-IsIndexed same = record {
      named = λ k q e. ground (arith, by_name-remove S r s k, x.named k q);
      current = λ k q e. ground (
        arith,
        by_name-remove S r s k,
        by_id-remove S r s h q.id,
        x.current k q,
        x.named k q,
        same q,
        eq_iff r.name k,
        eq_iff r.id q.id,
      );
    }

  module _ (r : SystemRecord) (s : State S) (h : IsSynced S s) where
    -- If the listener of the store by id is set, every record of that store stands under its id,
    -- and each status store holds exactly the records of its status, then an add of a valid system
    -- that is known, and listed, under another name leaves the old record under the old name while
    -- the store by id has the new record, so that the store by name is no longer current.
    pub add_leaves_old_name :
        (o : SystemRecord)
        → validate_system_info r ≡ valid
        → value s.by_id r.id ≡ some o
        → value s.by_name o.name ≡ some o
        → o.name ≢ r.name
        → (value (add S r s).by_name o.name ≡ some o)
          × (value (add S r s).by_id o.id ≡ some r)
          × ¬ IsIndexed (add S r s)
    add_leaves_old_name o v known listed differ =
        let stays : value (add S r s).by_name o.name ≡ some o =
          ground (arith, by_name-add S r s v o.name, eq_iff r.name o.name) in
        let fresh : value (add S r s).by_id o.id ≡ some r =
          ground (arith, by_id-add S r s h v o.id, h.keyed r.id, eq_iff r.id o.id) in
        (stays, fresh, λ i. differ (ground (arith, i.current o.name o stays, fresh)))
