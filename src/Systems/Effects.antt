-- ===== src/Systems/Effects.antt =====
-- What add, update and remove leave in the stores by id and by name.
use bezel_custom.Prelude.{
  ◌≡◌, String, Option, none, some, arith, str_eq, if◌then◌else◌, ◌&&◌, ap, ◌∙◌,
}
use bezel_custom.Store.{MapStore}
use bezel_custom.Systems.{
  throws, valid, add_checked, update_checked, renamed, SystemRecord, State, set_by_id, add, update,
  remove, forget_name, old_name, validate_system_info, property_key,
}
use bezel_custom.Systems.Writes.{by_id-set_by_id, by_name-set_by_id, by_id-unlist}
use bezel_custom.Systems.Sync.{IsSynced, forget_name-IsSynced}

module _ (S : MapStore SystemRecord) (r : SystemRecord) (s : State S) where
  open S use {Store, value, set_key, value-set_key}

  -- A record without CPU info is logged and changes nothing.
  pub add_throws : validate_system_info r ≡ throws → (add S r s ≡ s) × (update S r s ≡ s)
  unfolding add add_checked update update_checked
  add_throws e = (rw e, rw e)

  pub by_name-add :
      validate_system_info r ≡ valid
      → (j : String)
      → value (add S r s).by_name j ≡ (if str_eq r.name j then some r else value s.by_name j)
  unfolding add add_checked
  by_name-add v j =
      let named : State S = record s { by_name = set_key s.by_name r.name (some r) } in
      rw v (
        ap (λ (t : Store). value t j) (by_name-set_by_id S r.id (some r) named).0
        ∙ value-set_key s.by_name r.name j (some r))

  pub by_name-remove :
      (j : String)
      → value (remove S r s).by_name j ≡ (if str_eq r.name j then none else value s.by_name j)
  unfolding remove
  by_name-remove j =
      let unnamed : State S = record s { by_name = set_key s.by_name r.name none } in
      let after : State S = set_by_id S r.id none unnamed in
      ap (λ (t : Store). value t j) (by_id-unlist S r after).1
      ∙ ap (λ (t : Store). value t j) (by_name-set_by_id S r.id none unnamed).0
      ∙ value-set_key s.by_name r.name j none

  -- The name that update takes out of the store.
  by_name-forget_name :
      (old : Option String) (j : String)
      → value (forget_name S old r.name s).by_name j
        ≡ (if renamed old r.name && str_eq (property_key old) j then none else value s.by_name j)
  unfolding forget_name
  by_name-forget_name old j = ground (arith, value-set_key s.by_name (property_key old) j none)

  by_id-forget_name : (old : Option String) → (forget_name S old r.name s).by_id ≡ s.by_id
  unfolding forget_name
  by_id-forget_name old = ground arith

  module _ (h : IsSynced S s) where
    pub by_id-add :
        validate_system_info r ≡ valid
        → (j : String)
        → value (add S r s).by_id j ≡ (if str_eq r.id j then some r else value s.by_id j)
    unfolding add add_checked
    by_id-add v j = rw v (
        by_id-set_by_id S r.id (some r) (record s { by_name = set_key s.by_name r.name (some r) }) j
          (h.keyed r.id))

    pub by_id-remove :
        (j : String)
        → value (remove S r s).by_id j ≡ (if str_eq r.id j then none else value s.by_id j)
    unfolding remove
    by_id-remove j =
        let unnamed : State S = record s { by_name = set_key s.by_name r.name none } in
        ap (λ (t : Store). value t j) (by_id-unlist S r (set_by_id S r.id none unnamed)).0
        ∙ by_id-set_by_id S r.id none unnamed j (h.keyed r.id)

module _ (S : MapStore SystemRecord) (r : SystemRecord) (s : State S) (h : IsSynced S s) where
  open S use {Store, value}

  pub by_id-update :
      validate_system_info r ≡ valid
      → (j : String)
      → value (update S r s).by_id j ≡ (if str_eq r.id j then some r else value s.by_id j)
  unfolding update update_checked
  by_id-update v j =
      let old : Option String = old_name S s r.id in
      let forgot : State S = forget_name S old r.name s in
      rw v (
        by_id-add S r forgot (forget_name-IsSynced S old r.name s h) v j
        ∙ ap (λ (t : Store). if str_eq r.id j then some r else value t j)
            (by_id-forget_name S r s old))

  pub by_name-update :
      validate_system_info r ≡ valid
      → (j : String)
      → value (update S r s).by_name j ≡ (
          if str_eq r.name j
          then some r
          else if renamed (old_name S s r.id) r.name && str_eq (property_key (old_name S s r.id)) j
          then none
          else value s.by_name j)
  unfolding update update_checked
  by_name-update v j =
      let old : Option String = old_name S s r.id in
      rw v (
        ground (
          arith,
          by_name-add S r (forget_name S old r.name s) v j,
          by_name-forget_name S r s old j,
        ))
