-- ===== src/Systems/Display/Events.antt =====
-- Every function of the manager keeps what the page shows up to date.
use bezel_custom.Prelude.{
  ◌≡◌, String, Option, none, some, List, [], ◌∷◌, arith, length, eq_refl, Bool-cases, inl, inr, ◌∙◌,
  ap, sym,
}
use bezel_custom.Store.{MapStore}
use bezel_custom.Systems.{
  throws, valid, Checked, down, SystemRecord, State, start, init, add, update, remove, dispatch,
  add_all, fetched, refresh_with, refresh, validate_system_info, set_by_id, unlist, add_checked,
  update_checked, forget_name, old_name, renamed, property_key, remove_from,
}
use bezel_custom.Systems.Writes.{by_id-set_by_id, filed}
use bezel_custom.Systems.Sync.{
  IsSynced, add-IsSynced, set_by_id-IsSynced, by_name-IsSynced, forget_name-IsSynced,
}
use bezel_custom.Systems.Directory.{Event, message, answer, handle, run, handle-IsSynced}
use bezel_custom.Systems.Display.{IsShown, set_by_id-IsShown}

module _ (S : MapStore SystemRecord) where
  open S use {
    Store, value, values, set_key, value-set_key, set_key-absent, values-empty, notifies,
    eq_of_silent, value-empty,
  }

  by_name-IsShown : (s : State S) (m : Store) → IsShown S s → IsShown S (record s { by_name = m })
  by_name-IsShown s m v = record { capped = v.capped; wide = v.wide; counted = v.counted }

  module _ (r : SystemRecord) (s : State S) (h : IsSynced S s) (v : IsShown S s) where
    add-IsShown_checked : (c : Checked) → IsShown S (add_checked S c r s)
    unfolding add_checked
    add-IsShown_checked throws = v
    add-IsShown_checked valid =
        set_by_id-IsShown S r.id (some r) (record s { by_name = set_key s.by_name r.name (some r) })
          (by_name-IsSynced S s (set_key s.by_name r.name (some r)) h)
          (by_name-IsShown s (set_key s.by_name r.name (some r)) v)

    pub add-IsShown : IsShown S (add S r s)
    unfolding add
    add-IsShown = add-IsShown_checked (validate_system_info r)

    forget_name-IsShown : (o : Option String) (n : String) → IsShown S (forget_name S o n s)
    unfolding forget_name
    forget_name-IsShown o n = elim (Bool-cases (renamed o n)) [
      | inl e ↦ rw e (by_name-IsShown s (set_key s.by_name (property_key o) none) v)
      | inr e ↦ rw e v
    ]

  module _ (r : SystemRecord) (s : State S) (h : IsSynced S s) (v : IsShown S s) where
    update-IsShown_checked : (c : Checked) → IsShown S (update_checked S c r s)
    unfolding update_checked
    update-IsShown_checked throws = v
    update-IsShown_checked valid =
        add-IsShown r (forget_name S (old_name S s r.id) r.name s)
          (forget_name-IsSynced S (old_name S s r.id) r.name s h)
          (forget_name-IsShown r s h v (old_name S s r.id) r.name)

    -- The last writes of remove find nothing to delete.
    unlist-IsShown : value s.by_id r.id ≡ none → IsShown S (unlist S r s)
    unfolding unlist remove_from
    unlist-IsShown gone = record {
      capped = v.capped;
      wide = λ k q e. v.wide k q e;
      counted =
          v.counted
          ∙ ap (λ t. length (values t))
              (sym
                (set_key-absent s.down_systems r.id (h.synced down r.id ∙ ap (filed down) gone)));
    }

  module _ (r : SystemRecord) (s : State S) (h : IsSynced S s) (v : IsShown S s) where
    pub update-IsShown : IsShown S (update S r s)
    unfolding update
    update-IsShown = update-IsShown_checked r s h v (validate_system_info r)

    pub remove-IsShown : IsShown S (remove S r s)
    unfolding remove
    remove-IsShown =
        let unnamed : State S = record s { by_name = set_key s.by_name r.name none } in
        let h' : IsSynced S unnamed = by_name-IsSynced S s (set_key s.by_name r.name none) h in
        unlist-IsShown r (set_by_id S r.id none unnamed)
          (set_by_id-IsSynced S r.id none unnamed tt h')
          (set_by_id-IsShown S r.id none unnamed h'
            (by_name-IsShown s (set_key s.by_name r.name none) v))
          (ground (arith, by_id-set_by_id S r.id none unnamed r.id (h.keyed r.id), eq_refl r.id))

    pub dispatch-IsShown : (action : String) → IsShown S (dispatch S action r s)
    unfolding dispatch
    dispatch-IsShown action = ground (arith, add-IsShown r s h v, update-IsShown, remove-IsShown)

  add_all-IsShown :
      (rs : List SystemRecord) (s : State S)
      → IsSynced S s
      → IsShown S s
      → IsShown S (add_all S rs s)
  unfolding add_all
  add_all-IsShown [] s h v = v
  add_all-IsShown (r ∷ rs) s h v =
      add_all-IsShown rs (add S r s) (add-IsSynced S r s h) (add-IsShown r s h v)

  refresh_with-IsShown :
      (rs : List SystemRecord) (s : State S)
      → IsSynced S s
      → IsShown S s
      → IsShown S (refresh_with S rs s).0
  unfolding refresh_with
  refresh_with-IsShown [] s h v = v
  refresh_with-IsShown (r ∷ rs) s h v = add_all-IsShown (r ∷ rs) s h v

  handle-IsShown : (e : Event) (s : State S) → IsSynced S s → IsShown S s → IsShown S (handle S e s)
  unfolding handle refresh
  handle-IsShown (message action r) s h v = dispatch-IsShown r s h v action
  handle-IsShown (answer response) s h v = refresh_with-IsShown (fetched response) s h v

  -- From a state whose stores agree, and whatever events arrive, the name column stays wide enough
  -- for the name of every system up to the greatest width, never passes that width, and the icon's
  -- number stays that of the systems in the store of down systems.
  pub run-IsShown :
      (es : List Event) (s : State S) → IsSynced S s → IsShown S s → IsShown S (run S es s)
  unfolding run
  run-IsShown [] s h v = v
  run-IsShown (e ∷ es) s h v =
      run-IsShown es (handle S e s) (handle-IsSynced S e s h) (handle-IsShown e s h v)

  pub start-IsShown : IsShown S (init S (start S))
  unfolding init start
  start-IsShown = record {
    capped = omega arith;
    wide = λ k r e. cc (value-empty k);
    counted = ap length (sym values-empty);
  }
