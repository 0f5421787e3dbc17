-- ===== src/Systems/Sync.antt =====
-- The status stores agree with the store of all systems, whatever the manager's functions are given.
use bezel_custom.Prelude.{
  ◌≡◌, refl, String, true, Option, none, some, List, [], ◌∷◌, arith, str_eq, eq_iff, eq_refl,
  if◌then◌else◌, Bool-cases, inl, inr, subst, ◌∙◌,
}
use bezel_custom.Store.{MapStore}
use bezel_custom.Systems.{
  throws, valid, add_checked, update_checked, renamed, refresh_with, unlist, SystemStatus, up, down,
  pending, paused, SystemRecord, State, start, init, set_by_id, add, update, remove, forget_name,
  dispatch, add_all, fetched, refresh, old_name, validate_system_info,
}
use bezel_custom.Systems.Writes.{
  filed, status_store, value-unlist, by_id-unlist, IsKeyed, by_id-set_by_id, status_store-set_by_id,
  by_name-set_by_id,
}

module _ (S : MapStore SystemRecord) where
  open S use {Store, empty, value, set_key, value-empty, value-set_key}

  -- The listener is registered, every system is under its own id, and each status store holds
  -- exactly the systems of that status.
  pub record IsSynced (s : State S) : Type 0 where
    pub listening : s.initialized ≡ true
    pub keyed : (k : String) → IsKeyed k (value s.by_id k)
    pub synced :
        (st : SystemStatus) (k : String)
        → value (status_store S st s) k ≡ filed st (value s.by_id k)

  IsKeyed-if :
      (key j : String) (new old : Option SystemRecord)
      → IsKeyed key new
      → IsKeyed j old
      → IsKeyed j (if str_eq key j then new else old)
  IsKeyed-if key j new old p q = elim (Bool-cases (str_eq key j)) [
    | inl same ↦ rw same (subst (λ k. IsKeyed k new) ((eq_iff key j).0 same) p)
    | inr other ↦ rw other q
  ]

  pub set_by_id-IsSynced :
      (key : String) (new : Option SystemRecord) (s : State S)
      → IsKeyed key new
      → IsSynced s
      → IsSynced (set_by_id S key new s)
  set_by_id-IsSynced key new s p h = record {
    listening = ground (arith, by_name-set_by_id S key new s, h.listening);
    keyed = λ j.
        rw (by_id-set_by_id S key new s j (h.keyed key))
          (IsKeyed-if key j new (value s.by_id j) p (h.keyed j));
    synced = λ st j. ground (
      arith,
      status_store-set_by_id S st key new s j h.listening (h.keyed key) p (h.synced st key),
      by_id-set_by_id S key new s j (h.keyed key),
      h.synced st j,
    );
  }

  -- After init on the empty stores, everything agrees.
  pub start-IsSynced : IsSynced (init S (start S))
  unfolding init start
  start-IsSynced = record {
    listening = refl;
    keyed = λ k. rw (value-empty k) tt;
    synced = λ st k. rw (value-empty k) (empty_store st k);
  }
    where
      empty_store :
          (st : SystemStatus) (k : String) → value (status_store S st (init S (start S))) k ≡ none
      empty_store up k = value-empty k
      empty_store _ k = value-empty k

  -- Writes to the store by name are of no concern to the others.
  pub by_name-IsSynced :
      (s : State S) (m : Store) → IsSynced s → IsSynced (record s { by_name = m })
  by_name-IsSynced s m h = record { listening = h.listening; keyed = h.keyed; synced = synced_at }
    where
      synced_at :
          (st : SystemStatus) (k : String)
          → value (status_store S st (record s { by_name = m })) k ≡ filed st (value s.by_id k)
      synced_at up k = h.synced up k
      synced_at down k = h.synced down k
      synced_at paused k = h.synced paused k
      synced_at pending k = h.synced pending k

  pub add-IsSynced : (r : SystemRecord) (s : State S) → IsSynced s → IsSynced (add S r s)
  unfolding add add_checked
  add-IsSynced r s h = elim (validate_system_info r) as (λ c. IsSynced (add_checked S c r s)) [
    | throws ↦ h
    | valid ↦
        set_by_id-IsSynced r.id (some r) (record s { by_name = set_key s.by_name r.name (some r) })
          refl (by_name-IsSynced s (set_key s.by_name r.name (some r)) h)
  ]

  pub forget_name-IsSynced :
      (o : Option String) (n : String) (s : State S) → IsSynced s → IsSynced (forget_name S o n s)
  unfolding forget_name
  forget_name-IsSynced o n s h = elim (Bool-cases (renamed o n)) [
    | inl e ↦ rw e (by_name-IsSynced s _ h)
    | inr e ↦ rw e h
  ]

  pub update-IsSynced : (r : SystemRecord) (s : State S) → IsSynced s → IsSynced (update S r s)
  unfolding update update_checked
  update-IsSynced r s h =
      elim (validate_system_info r) as (λ c. IsSynced (update_checked S c r s)) [
        | throws ↦ h
        | valid ↦ add-IsSynced r _ (forget_name-IsSynced (old_name S s r.id) r.name s h)
      ]

  -- The last writes of remove find nothing once the system has left the store by id.
  unlist-IsSynced :
      (r : SystemRecord) (s : State S)
      → value s.by_id r.id ≡ none
      → IsSynced s
      → IsSynced (unlist S r s)
  unlist-IsSynced r s gone h =
      let (ids, _, ready) = by_id-unlist S r s in
      record {
        listening = ready ∙ h.listening;
        keyed = λ k. rw ids (h.keyed k);
        synced =
            λ st k. rw ids (ground (arith, value-unlist S st r s k, h.synced st k, eq_iff r.id k));
      }

  pub remove-IsSynced : (r : SystemRecord) (s : State S) → IsSynced s → IsSynced (remove S r s)
  unfolding remove
  remove-IsSynced r s h =
      let unnamed : State S = record s { by_name = set_key s.by_name r.name none } in
      unlist-IsSynced r (set_by_id S r.id none unnamed)
        (ground (arith, by_id-set_by_id S r.id none unnamed r.id (h.keyed r.id), eq_refl r.id))
        (set_by_id-IsSynced r.id none unnamed tt (by_name-IsSynced s _ h))

  -- Whatever event the subscription delivers, and whatever the manager is asked to do.
  pub dispatch-IsSynced :
      (action : String) (r : SystemRecord) (s : State S)
      → IsSynced s
      → IsSynced (dispatch S action r s)
  unfolding dispatch
  dispatch-IsSynced action r s h =
      ground (arith, add-IsSynced r s h, update-IsSynced r s h, remove-IsSynced r s h)

  add_all-IsSynced : (rs : List SystemRecord) (s : State S) → IsSynced s → IsSynced (add_all S rs s)
  unfolding add_all
  add_all-IsSynced [] s h = h
  add_all-IsSynced (r ∷ rs) s h = add_all-IsSynced rs (add S r s) (add-IsSynced r s h)

  refresh_with-IsSynced :
      (rs : List SystemRecord) (s : State S) → IsSynced s → IsSynced (refresh_with S rs s).0
  unfolding refresh_with
  refresh_with-IsSynced [] s h = h
  refresh_with-IsSynced (r ∷ rs) s h = add_all-IsSynced (r ∷ rs) s h

  pub refresh-IsSynced :
      (response : Option (List SystemRecord)) (s : State S)
      → IsSynced s
      → IsSynced (refresh S response s).0
  unfolding refresh
  refresh-IsSynced response s h = refresh_with-IsSynced (fetched response) s h
