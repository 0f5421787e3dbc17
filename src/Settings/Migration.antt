-- ===== src/Settings/Migration.antt =====
-- Loading the settings and moving the links of the local storage to the server.
use bezel_custom.Prelude.{
  ◌≡◌, ◌↔◌, refl, String, str_eq, eq_iff, Bool-cases, inl, inr, map, Bool, true, false, Option,
  none, some, List, [], ◌∷◌, ◌++◌, sym, ap,
}
use mathlib.Core.List.{Memᴰ, append-nil}
use mathlib.Core.List.Memᴰ
use bezel_custom.QuickLinks.{QuickLink}
use bezel_custom.Settings.{
  UserSettings, World, Local, absent, broken, holds, or_none, has_id, new_links, merge_links,
  migrate, load, update_user_settings, set_user_settings, create_row,
}

-- The links of the local storage.
abbrev pub links_of : Local → List QuickLink
links_of absent = []
links_of broken = []
links_of (holds ls) = ls

-- The links of a list whose ids are none of the known ones, in their order.
pub data Picks (known : List String) : List QuickLink → List QuickLink → Type 0 where
  ends : Picks known [] []
  picks :
      {l : QuickLink} {ls new : List QuickLink}
      → ¬ Memᴰ l.id known
      → Picks known ls new
      → Picks known (l ∷ ls) (l ∷ new)
  passes :
      {l : QuickLink} {ls new : List QuickLink}
      → Memᴰ l.id known
      → Picks known ls new
      → Picks known (l ∷ ls) new

abbrev pub ids : List QuickLink → List String
ids links = map (λ l. l.id) links

among_others :
    (id other : String) (xs : List String)
    → str_eq other id ≡ false
    → Memᴰ id (other ∷ xs)
    → Memᴰ id xs
among_others id other xs differ (Memᴰ.head e) =
    let never : ⊥ = cc (differ, (eq_iff other id).1 (sym e)) in absurd never
among_others id other xs differ (Memᴰ.tail m) = m

has_id-Memᴰ : (id : String) (ls : List QuickLink) → (has_id id ls ≡ true) ↔ Memᴰ id (ids ls)
unfolding has_id
has_id-Memᴰ id [] = (λ h. cc, λ m. absurd (Memᴰ.not-nil m))
has_id-Memᴰ id (l ∷ ls) = elim (Bool-cases (str_eq l.id id)) [
  | inl same ↦ rw same (λ _. Memᴰ.head (sym ((eq_iff l.id id).0 same)), λ _. refl)
  | inr other ↦ rw other (
    λ h. Memᴰ.tail ((has_id-Memᴰ id ls).0 h),
    λ m. (has_id-Memᴰ id ls).1 (among_others id l.id (ids ls) other m),
  )
]

new_links-Picks : (server ls : List QuickLink) → Picks (ids server) ls (new_links server ls)
unfolding new_links
new_links-Picks server [] = ends
new_links-Picks server (l ∷ ls) = elim (Bool-cases (has_id l.id server)) [
  | inl known ↦ rw known (passes ((has_id-Memᴰ l.id server).0 known) (new_links-Picks server ls))
  | inr new ↦
      rw new (picks (λ m. cc (new, (has_id-Memᴰ l.id server).1 m)) (new_links-Picks server ls))
]

-- The links of the server and the new ones of the local storage.
abbrev merged : UserSettings → Local → List QuickLink
merged s local = or_none s.quick_links ++ new_links (or_none s.quick_links) (links_of local)

merge_links_lem :
    (s : UserSettings) (new : List QuickLink) (w : World)
    → w.row ≡ some s
    → ((merge_links true s (or_none s.quick_links) new w).quick_links
        ≡ or_none s.quick_links ++ new)
      × ((r : Option (List QuickLink)) × ((merge_links true s (or_none s.quick_links) new w).row
            ≡ some (record s { quick_links = r }))
          × (or_none r ≡ or_none s.quick_links ++ new))
unfolding merge_links
merge_links_lem s [] w e = (
  sym (append-nil (or_none s.quick_links)),
  (s.quick_links, e, sym (append-nil (or_none s.quick_links))),
)
merge_links_lem s (l ∷ ls) w e = (refl, (some (or_none s.quick_links ++ l ∷ ls), refl, refl))

migrate_lem :
    (s : UserSettings) (local : Local) (w : World)
    → w.row ≡ some s
    → ((migrate true s (or_none s.quick_links) local w).quick_links ≡ merged s local)
      × ((r : Option (List QuickLink)) × ((migrate true s (or_none s.quick_links) local w).row
            ≡ some (record s { quick_links = r }))
          × (or_none r ≡ merged s local))
unfolding migrate new_links
migrate_lem s absent w e = merge_links_lem s [] w e
migrate_lem s broken w e = merge_links_lem s [] w e
migrate_lem s (holds ls) w e = merge_links_lem s (new_links (or_none s.quick_links) ls) w e

migrate-local :
    (saved : Bool) (s : UserSettings) (server : List QuickLink) (local : Local) (w : World)
    → w.local ≡ local
    → (migrate saved s server local w).local ≡ absent
unfolding migrate
migrate-local saved s server absent w e = e
migrate-local saved s server broken w e = refl
migrate-local saved s server (holds ls) w e = refl

update_user_settings-loads :
    (initial s : UserSettings) (saved created : Bool) (w : World)
    → w.row ≡ some s
    → update_user_settings initial true saved created w ≡ load saved s w
unfolding update_user_settings
update_user_settings-loads initial s saved created w e =
    ap
      (λ o. elim o as (λ _. World) [
        | none ↦ create_row initial created w.row w
        | some t ↦ load saved t w
      ])
      e

migrates_merged :
    (initial s : UserSettings) (created : Bool) (w : World)
    → w.row ≡ some s
    → ((update_user_settings initial true true created w).quick_links ≡ merged s w.local)
      × ((update_user_settings initial true true created w).local ≡ absent)
      × ((r : Option (List QuickLink)) × ((update_user_settings initial true true created w).row
            ≡ some (record s { quick_links = r }))
          × (or_none r ≡ merged s w.local))
unfolding update_user_settings load set_user_settings
migrates_merged initial s created w e =
    let before : World = record (set_user_settings s w) {
      external_links = or_none s.external_links;
    } in
    rw (update_user_settings-loads initial s true created w e) (
      (migrate_lem s w.local before e).0,
      migrate-local true s (or_none s.quick_links) w.local before refl,
      (migrate_lem s w.local before e).1,
    )

-- If the server has a row for the user and the requests succeed, loading the settings shows the
-- links of the server followed by those of the local storage whose ids are none of the server's,
-- in their order, saves the same list in the row, whose other fields stay, and empties the local
-- storage.
pub update_user_settings-migrates :
    (initial s : UserSettings) (created : Bool) (w : World)
    → w.row ≡ some s
    → let after = update_user_settings initial true true created w in
      (new : List QuickLink) × (Picks (ids (or_none s.quick_links)) (links_of w.local) new
        × ((after.quick_links ≡ or_none s.quick_links ++ new)
            × ((after.local ≡ absent)
                × ((r : Option (List QuickLink)) × ((after.row
                        ≡ some (record s { quick_links = r }))
                      × (or_none r ≡ or_none s.quick_links ++ new))))))
update_user_settings-migrates initial s created w e =
    let (shown, emptied, (r, kept, all)) = migrates_merged initial s created w e in
    (
      new_links (or_none s.quick_links) (links_of w.local),
      (
        new_links-Picks (or_none s.quick_links) (links_of w.local),
        (shown, (emptied, (r, (kept, all)))),
      ),
    )

merge_links-failed :
    (s : UserSettings) (server new : List QuickLink) (w : World)
    → merge_links false s server new w ≡ record w { quick_links = server }
unfolding merge_links
merge_links-failed s server [] w = refl
merge_links-failed s server (l ∷ ls) w = refl

-- If the local storage has links and the request that saves the merged ones fails, loading the
-- settings shows the links of the server only, leaves its row as it was, and empties the local
-- storage all the same.
pub update_user_settings-loses :
    (initial s : UserSettings) (created : Bool) (ls : List QuickLink) (w : World)
    → w.row ≡ some s
    → w.local ≡ holds ls
    → ((update_user_settings initial true false created w).quick_links ≡ or_none s.quick_links)
      × ((update_user_settings initial true false created w).local ≡ absent)
      × ((update_user_settings initial true false created w).row ≡ some s)
unfolding load migrate set_user_settings
update_user_settings-loses initial s created ls w e held =
    rw (update_user_settings-loads initial s false created w e, held, merge_links-failed)
      (refl, refl, e)
