-- ===== src/Systems/Directory.antt =====
-- What the manager promises of a session: its stores are those of a plain directory of systems to
-- which the delivered events were applied in order.
use bezel_custom.Prelude.{
  ◌≡◌, refl, String, Option, none, some, List, [], ◌∷◌, arith, str_eq, if◌then◌else◌,
}
use bezel_custom.Store.{MapStore}
use bezel_custom.Systems.{
  throws, valid, Checked, SystemStatus, SystemRecord, State, start, init, add, update, dispatch,
  add_all, fetched, refresh_with, refresh, validate_system_info,
}
use bezel_custom.Systems.Writes.{filed, status_store}
use bezel_custom.Systems.Sync.{
  IsSynced, add-IsSynced, dispatch-IsSynced, refresh-IsSynced, start-IsSynced,
}
use bezel_custom.Systems.Effects.{add_throws, by_id-add, by_id-update, by_id-remove}

-- What reaches the manager: a realtime message, or the answer to refresh (none if it failed).
pub data Event : Type 0 where
  message : String → SystemRecord → Event
  answer : Option (List SystemRecord) → Event

abbrev pub Directory : Type 0
Directory = String → Option SystemRecord

abbrev pub accept : Checked → SystemRecord → Directory → Directory
accept throws r d k = d k
accept valid r d k = if str_eq r.id k then some r else d k

-- A record counts if it has CPU info.
abbrev pub record_system : SystemRecord → Directory → Directory
record_system r d = accept (validate_system_info r) r d

abbrev pub record_all : List SystemRecord → Directory → Directory
record_all [] d = d
record_all (r ∷ rs) d = record_all rs (record_system r d)

abbrev pub enter : Event → Directory → Directory
enter (message action r) d =
    if str_eq action "create"
    then record_system r d
    else if str_eq action "update"
    then record_system r d
    else if str_eq action "delete"
    then (λ k. if str_eq r.id k then none else d k)
    else d
enter (answer response) d = record_all (fetched response) d

abbrev pub enter_all : List Event → Directory → Directory
enter_all [] d = d
enter_all (e ∷ es) d = enter_all es (enter e d)

module _ (S : MapStore SystemRecord) where
  open S use {value, value-empty}

  unfoldable pub handle : Event → State S → State S
  handle (message action r) s = dispatch S action r s
  handle (answer response) s = (refresh S response s).0

  unfoldable pub run : List Event → State S → State S
  run [] s = s
  run (e ∷ es) s = run es (handle e s)

  abbrev Shows : State S → Directory → Type 0
  Shows s d = (k : String) → value s.by_id k ≡ d k

  pub handle-IsSynced : (e : Event) (s : State S) → IsSynced S s → IsSynced S (handle e s)
  unfolding handle
  handle-IsSynced (message action r) s h = dispatch-IsSynced S action r s h
  handle-IsSynced (answer response) s h = refresh-IsSynced S response s h

  pub run-IsSynced : (es : List Event) (s : State S) → IsSynced S s → IsSynced S (run es s)
  unfolding run
  run-IsSynced [] s h = h
  run-IsSynced (e ∷ es) s h = run-IsSynced es (handle e s) (handle-IsSynced e s h)

  module _ (r : SystemRecord) (s : State S) (d : Directory) (h : IsSynced S s) (w : Shows s d) where
    add-Shows_checked :
        (c : Checked) → validate_system_info r ≡ c → Shows (add S r s) (accept c r d)
    add-Shows_checked throws e k = rw ((add_throws S r s e).0) (w k)
    add-Shows_checked valid e k = ground (arith, by_id-add S r s h e k, w k)

    add-Shows : Shows (add S r s) (record_system r d)
    add-Shows = add-Shows_checked (validate_system_info r) refl

    update-Shows_checked :
        (c : Checked) → validate_system_info r ≡ c → Shows (update S r s) (accept c r d)
    update-Shows_checked throws e k = rw ((add_throws S r s e).1) (w k)
    update-Shows_checked valid e k = ground (arith, by_id-update S r s h e k, w k)

    dispatch-Shows : (action : String) → Shows (dispatch S action r s) (enter (message action r) d)
    unfolding dispatch
    dispatch-Shows action k = ground (
      arith,
      add-Shows k,
      update-Shows_checked (validate_system_info r) refl k,
      by_id-remove S r s h k,
      w k,
    )

  add_all-Shows :
      (rs : List SystemRecord) (s : State S) (d : Directory)
      → IsSynced S s
      → Shows s d
      → Shows (add_all S rs s) (record_all rs d)
  unfolding add_all
  add_all-Shows [] s d h w = w
  add_all-Shows (r ∷ rs) s d h w =
      add_all-Shows rs (add S r s) (record_system r d) (add-IsSynced S r s h) (add-Shows r s d h w)

  refresh_with-Shows :
      (rs : List SystemRecord) (s : State S) (d : Directory)
      → IsSynced S s
      → Shows s d
      → Shows (refresh_with S rs s).0 (record_all rs d)
  unfolding refresh_with
  refresh_with-Shows [] s d h w = w
  refresh_with-Shows (r ∷ rs) s d h w = add_all-Shows (r ∷ rs) s d h w

  handle-Shows :
      (e : Event) (s : State S) (d : Directory)
      → IsSynced S s
      → Shows s d
      → Shows (handle e s) (enter e d)
  unfolding handle refresh
  handle-Shows (message action r) s d h w = dispatch-Shows r s d h w action
  handle-Shows (answer response) s d h w = refresh_with-Shows (fetched response) s d h w

  run-Shows :
      (es : List Event) (s : State S) (d : Directory)
      → IsSynced S s
      → Shows s d
      → Shows (run es s) (enter_all es d)
  unfolding run
  run-Shows [] s d h w = w
  run-Shows (e ∷ es) s d h w =
      run-Shows es (handle e s) (enter e d) (handle-IsSynced e s h) (handle-Shows e s d h w)

  -- From the empty stores after init, and whatever realtime messages and answers to refresh
  -- arrive, the store by id holds under each id exactly what a plain directory holds after the
  -- same events (create and update record a system that has CPU info, delete drops it, a failed or
  -- empty answer changes nothing), and each status store holds exactly the systems that were last
  -- recorded with that status.
  pub run-directory :
      (es : List Event) (k : String)
      → (value (run es (init S (start S))).by_id k ≡ enter_all es (λ j. none) k)
        × ((st : SystemStatus)
            → value (status_store S st (run es (init S (start S)))) k
              ≡ filed st (enter_all es (λ j. none) k))
  run-directory es k =
      let shown =
        run-Shows es (init S (start S)) (λ j. none) (start-IsSynced S)
          (unfold init start in value-empty) k in
      (
        shown,
        λ st.
            ground
              (arith, (run-IsSynced es (init S (start S)) (start-IsSynced S)).synced st k, shown),
      )
