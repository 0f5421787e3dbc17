-- ===== src/Systems/Logout.antt =====
-- logOut of internal/site/src/lib/api.ts and the manager's stores.
use bezel_custom.Prelude.{◌≡◌, String, none, some, arith, ◌∙◌, ap}
use bezel_custom.Store.{MapStore}
use bezel_custom.Systems.{
  SystemStatus, up, down, pending, paused, SystemRecord, State, on_systems_changed, listener,
  log_out,
}
use bezel_custom.Systems.Writes.{status_store, filed}
use bezel_custom.Systems.Sync.{IsSynced}

module _ (S : MapStore SystemRecord) where
  open S use {Store, value, value-empty, set_key}

  status_store-log_out :
      (st : SystemStatus) (s : State S) → status_store S st (log_out S s) ≡ status_store S st s
  unfolding log_out listener on_systems_changed
  status_store-log_out up s = ground arith
  status_store-log_out down s = ground arith
  status_store-log_out paused s = ground arith
  status_store-log_out pending s = ground arith

  by_id-log_out : (s : State S) (k : String) → value (log_out S s).by_id k ≡ none
  unfolding log_out listener on_systems_changed
  by_id-log_out s k = ground (arith, value-empty k)

  -- Logging out empties the store by id, but a system in a status store stays there, so that the
  -- stores no longer agree.
  pub log_out_leaves_status_stores :
      (s : State S) (st : SystemStatus) (k : String) (r : SystemRecord)
      → value (status_store S st s) k ≡ some r
      → (value (log_out S s).by_id k ≡ none)
        × (value (status_store S st (log_out S s)) k ≡ some r)
        × ¬ IsSynced S (log_out S s)
  log_out_leaves_status_stores s st k r e =
      let gone = by_id-log_out s k in
      let stays : value (status_store S st (log_out S s)) k ≡ some r =
        ap (λ (t : Store). value t k) (status_store-log_out st s) ∙ e in
      (gone, stays, λ h. cc (stays, h.synced st k, ap (filed st) gone))
