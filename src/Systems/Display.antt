-- ===== src/Systems/Display.antt =====
-- What the page shows of the stores: the width of the name column and the number on the icon.
pub mod Events
use bezel_custom.Prelude.{
  ℕ, ◌+◌, ◌≤◌, ◌≡◌, refl, String, true, false, ◌&&◌, Option, none, some, List, [], ◌∷◌, arith, min,
  length, str_eq, eq_iff, eq_refl, if◌then◌else◌, Bool-cases, inl, inr, ◌∙◌, ap, sym,
}
use bezel_custom.Store.{MapStore}
use bezel_custom.Utils.Width.{visual_width}
use bezel_custom.Systems.{
  throws, valid, Checked, SystemStatus, up, down, pending, paused, SystemRecord, State, start, init,
  add, update, remove, dispatch, add_all, fetched, refresh_with, refresh, validate_system_info,
  max_system_name_length, changed_name, on_systems_changed, purge, file_by_status, listener,
  set_by_id, unlist, add_checked, update_checked, forget_name, old_name, update_favicon, renamed,
  property_key, remove_from,
}
use bezel_custom.Systems.Writes.{IsKeyed, by_id-set_by_id, status_store, filed}
use bezel_custom.Systems.Sync.{
  IsSynced, start-IsSynced, add-IsSynced, set_by_id-IsSynced, by_name-IsSynced,
  forget_name-IsSynced,
}
use bezel_custom.Systems.Directory.{Event, message, answer, handle, run, handle-IsSynced}

module _ (S : MapStore SystemRecord) where
  open S use {
    Store, value, values, set_key, value-set_key, set_key-absent, values-empty, notifies,
    eq_of_silent, value-empty,
  }

  -- The width that a name asks for, at most the greatest width.
  abbrev pub wanted : SystemRecord → ℕ
  wanted r = min max_system_name_length (visual_width r.name)

  -- The column has room for the name of every system, within the greatest width, and the icon was
  -- drawn for the number of systems that are down.
  pub record IsShown (s : State S) : Type 0 where
    pub capped : s.longest_name ≤ max_system_name_length
    pub wide :
        (k : String) (r : SystemRecord) → value s.by_id k ≡ some r → wanted r ≤ s.longest_name
    pub counted : s.favicon.prev_down_count ≡ length (values s.down_systems)

  counted-on_systems_changed :
      (c : Option SystemRecord) (s : State S)
      → (on_systems_changed S c s).favicon.prev_down_count
        ≡ length (values (on_systems_changed S c s).down_systems)
  unfolding on_systems_changed update_favicon
  counted-on_systems_changed c s = ground arith

  longest-on_systems_changed :
      (c : Option SystemRecord) (s : State S)
      → (s.longest_name ≤ (on_systems_changed S c s).longest_name)
        × (min max_system_name_length (visual_width (changed_name c))
            ≤ (on_systems_changed S c s).longest_name)
        × (s.longest_name ≤ max_system_name_length
            → (on_systems_changed S c s).longest_name ≤ max_system_name_length)
  unfolding on_systems_changed
  longest-on_systems_changed c s = (ground arith, ground arith, λ h. ground arith)

  longest-file_by_status :
      (t : SystemStatus) (r : SystemRecord) (s : State S)
      → (file_by_status S t r s).longest_name ≡ s.longest_name
  unfolding file_by_status
  longest-file_by_status up r s = refl
  longest-file_by_status _ r s = refl

  -- The listener ends with on_systems_changed, and nothing before that touches the width.
  listener_ends :
      (old new : Option SystemRecord) (s : State S)
      → (m : State S) × (listener S old new s ≡ on_systems_changed S new m)
        × (m.longest_name ≡ s.longest_name)
  unfolding listener
  listener_ends none none s = (s, refl, refl)
  listener_ends (some old) none s = (purge S old s, refl, unfold purge in refl)
  listener_ends old (some new) s =
      (file_by_status S new.status new s, refl, longest-file_by_status new.status new s)

  module _ (key : String) (new : Option SystemRecord) (s : State S) where
    set_by_id-counted :
        s.favicon.prev_down_count ≡ length (values s.down_systems)
        → (set_by_id S key new s).favicon.prev_down_count
          ≡ length (values (set_by_id S key new s).down_systems)
    unfolding set_by_id
    set_by_id-counted h =
        let old : Option SystemRecord = value s.by_id key in
        let written : State S = record s { by_id = set_key s.by_id key new } in
        let (m, e, _) = listener_ends old new written in
        elim (Bool-cases (s.initialized && notifies old new)) [
          | inl fired ↦ rw (fired, e) (counted-on_systems_changed new m)
          | inr silent ↦ rw silent h
        ]

    set_by_id-longest :
        (s.longest_name ≤ (set_by_id S key new s).longest_name)
        × (s.longest_name ≤ max_system_name_length
            → (set_by_id S key new s).longest_name ≤ max_system_name_length)
    unfolding set_by_id
    set_by_id-longest =
        let old : Option SystemRecord = value s.by_id key in
        let written : State S = record s { by_id = set_key s.by_id key new } in
        let (m, e, same) = listener_ends old new written in
        let grown = longest-on_systems_changed new m in
        elim (Bool-cases (s.initialized && notifies old new)) [
          | inl fired ↦
              rw (fired, e) (omega (arith, grown.0, same), λ h. grown.2 (omega (arith, same)))
          | inr silent ↦ rw silent (omega arith, λ h. h)
        ]

    set_by_id-fits :
        (r : SystemRecord)
        → s.initialized ≡ true
        → new ≡ some r
        → ((o : SystemRecord) → value s.by_id key ≡ some o → wanted o ≤ s.longest_name)
        → wanted r ≤ (set_by_id S key new s).longest_name
    unfolding set_by_id changed_name
    set_by_id-fits r ready is_new fits =
        let old : Option SystemRecord = value s.by_id key in
        let written : State S = record s { by_id = set_key s.by_id key new } in
        let (m, e, same) = listener_ends old new written in
        let asked : wanted r ≡ min max_system_name_length (visual_width (changed_name new)) =
          rw is_new refl in
        elim (Bool-cases (s.initialized && notifies old new)) [
          | inl fired ↦ rw (fired, e) (omega (arith, asked, (longest-on_systems_changed new m).1))
          | inr silent ↦ rw silent (fits r (eq_of_silent old new (ground arith) ∙ is_new))
        ]

    pub set_by_id-IsShown : IsSynced S s → IsShown s → IsShown (set_by_id S key new s)
    set_by_id-IsShown h v = record {
      capped = set_by_id-longest.1 v.capped;
      wide = λ k r e. ground (
        arith,
        by_id-set_by_id S key new s k (h.keyed key),
        set_by_id-fits r h.listening,
        v.wide k r,
        v.wide key,
        set_by_id-longest.0,
      );
      counted = set_by_id-counted v.counted;
    }
