-- ===== src/SystemsTable/StatusFilter.antt =====
-- The rows that the table of all systems takes from the stores of the systems manager:
-- internal/site/src/components/systems-table/systems-table.tsx.
use mathlib.Core.List.{Memᴰ}
use bezel_custom.Prelude.{
  ◌≡◌, ◌↔◌, refl, sym, String, Bool, true, Option, none, some, List, arith, ap, if◌then◌else◌,
  Bool-cases, inl, inr, ◌∙◌,
}
use bezel_custom.Store.{MapStore}
use bezel_custom.Systems.{SystemStatus, up, down, pending, paused, SystemRecord, State, start, init}
use bezel_custom.Systems.Writes.{filed, has_store}
use bezel_custom.Systems.Directory.{Event, Directory, enter_all, run, run-directory}

pub data StatusFilter : Type 0 where
  all : StatusFilter
  only : SystemStatus → StatusFilter

-- The statuses whose systems a filter shows: every filter that is left shows the paused ones.
abbrev pub shows : StatusFilter → SystemStatus → Bool
shows all _ = true
shows (only up) status = has_store up status
shows (only down) status = has_store down status
shows (only _) status = has_store paused status

module _ (S : MapStore SystemRecord) where
  open S use {Store, value, values, mem-values}

  -- The store that the rows are the values of.
  abbrev pub row_store : StatusFilter → State S → Store
  row_store all s = s.by_id
  row_store (only up) s = s.up_systems
  row_store (only down) s = s.down_systems
  row_store (only _) s = s.paused_systems

  pub filtered_data : StatusFilter → State S → List SystemRecord
  filtered_data filter s = values (row_store filter s)

  abbrev session : List Event → State S
  session es = run S es (init S (start S))

  abbrev pub kept : StatusFilter → Option SystemRecord → Option SystemRecord
  kept filter none = none
  kept filter (some r) = if shows filter r.status then some r else none

  kept_all : (o : Option SystemRecord) → kept all o ≡ o
  kept_all none = refl
  kept_all (some r) = refl

  kept_only :
      (st : SystemStatus) (o : Option SystemRecord)
      → (st ≡ pending → ⊥)
      → filed st o ≡ kept (only st) o
  kept_only up none h = refl
  kept_only up (some r) h = refl
  kept_only down none h = refl
  kept_only down (some r) h = refl
  kept_only paused none h = refl
  kept_only paused (some r) h = refl
  kept_only pending o h = absurd (h refl)

  kept_pending : (o : Option SystemRecord) → filed paused o ≡ kept (only pending) o
  kept_pending none = refl
  kept_pending (some r) = refl

  abbrev listed : List Event → Directory
  listed es = enter_all es (λ j. none)

  row_store-kept :
      (es : List Event) (filter : StatusFilter) (k : String)
      → value (row_store filter (session es)) k ≡ kept filter (listed es k)
  row_store-kept es all k = (run-directory S es k).0 ∙ sym (kept_all (listed es k))
  row_store-kept es (only up) k = (run-directory S es k).1 up ∙ kept_only up (listed es k) (λ e. cc)
  row_store-kept es (only down) k =
      (run-directory S es k).1 down ∙ kept_only down (listed es k) (λ e. cc)
  row_store-kept es (only paused) k =
      (run-directory S es k).1 paused ∙ kept_only paused (listed es k) (λ e. cc)
  row_store-kept es (only pending) k = (run-directory S es k).1 paused ∙ kept_pending (listed es k)

  kept_iff :
      (filter : StatusFilter) (o : Option SystemRecord) (r : SystemRecord)
      → (kept filter o ≡ some r) ↔ ((o ≡ some r) × (shows filter r.status ≡ true))
  kept_iff filter none r = (λ h. ground (arith, h), λ h. ground (arith, h.0))
  kept_iff filter (some s) r = elim (Bool-cases (shows filter s.status)) [
    | inl shown ↦ rw shown (
      λ e.
          let same : s ≡ r = cc in
          (e, ap (λ (x : SystemRecord). shows filter x.status) (sym same) ∙ shown),
      λ (e, _). e,
    )
    | inr hidden ↦ rw hidden (
      λ e. cc,
      λ (e, shown).
          let same : s ≡ r = cc in cc (ap (λ (x : SystemRecord). shows filter x.status) same),
    )
  ]

  -- Whatever events reached the systems manager, the rows of the table are the systems that the
  -- directory of the same events has, with a status that the filter shows.
  pub filtered_data-directory :
      (es : List Event) (filter : StatusFilter) (r : SystemRecord)
      → Memᴰ r (filtered_data filter (session es))
        ↔ ((k : String) × (enter_all es (λ j. none) k ≡ some r) × (shows filter r.status ≡ true))
  unfolding filtered_data
  filtered_data-directory es filter r = (
    λ m.
        let (k, found) = (mem-values (row_store filter (session es)) r).0 m in
        let (e, shown) =
          (kept_iff filter (listed es k) r).0 (sym (row_store-kept es filter k) ∙ found) in
        (k, e, shown),
    λ (k, e, shown).
        (mem-values (row_store filter (session es)) r).1
          (k, row_store-kept es filter k ∙ (kept_iff filter (listed es k) r).1 (e, shown)),
  )
