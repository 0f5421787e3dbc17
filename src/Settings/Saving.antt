-- ===== src/Settings/Saving.antt =====
-- Saving links and settings: one save after another.
use bezel_custom.Prelude.{◌≡◌, refl, Bool, true, false, Option, none, some, List, ap, ◌∙◌}
use bezel_custom.QuickLinks.{QuickLink}
use bezel_custom.Settings.{
  UserSettings, ExternalLink, World, Changes, save_quick_links, save_external_links, save_settings,
  with_changes, write_quick_links, write_external_links, set_user_settings, begin_quick_links,
  end_quick_links, begin_external_links, end_external_links,
}

save_links_comm_at :
    (row : Option UserSettings) (f g f' g' : Bool) (a : List QuickLink) (b : List ExternalLink)
    (w : World)
    → save_quick_links f g a (save_external_links f' g' b (record w { row = row }))
      ≡ save_external_links f' g' b (save_quick_links f g a (record w { row = row }))
unfolding save_quick_links save_external_links write_quick_links write_external_links
    begin_quick_links end_quick_links begin_external_links end_external_links
save_links_comm_at none true g true g' a b w = refl
save_links_comm_at none true g false g' a b w = refl
save_links_comm_at none false g true g' a b w = refl
save_links_comm_at none false g false g' a b w = refl
save_links_comm_at (some s) false g false g' a b w = refl
save_links_comm_at (some s) false g true true a b w = refl
save_links_comm_at (some s) false g true false a b w = refl
save_links_comm_at (some s) true true false g' a b w = refl
save_links_comm_at (some s) true true true true a b w = refl
save_links_comm_at (some s) true true true false a b w = refl
save_links_comm_at (some s) true false false g' a b w = refl
save_links_comm_at (some s) true false true true a b w = refl
save_links_comm_at (some s) true false true false a b w = refl

-- Saving quick links and external links one after the other gives the same in either order,
-- whichever requests succeed.
pub save_links_comm :
    (f g f' g' : Bool) (a : List QuickLink) (b : List ExternalLink) (w : World)
    → save_quick_links f g a (save_external_links f' g' b w)
      ≡ save_external_links f' g' b (save_quick_links f g a w)
save_links_comm f g f' g' a b w = save_links_comm_at w.row f g f' g' a b w

save_settings_at :
    (s : UserSettings) (a : List QuickLink) (b : List ExternalLink) (c : Changes) (w : World)
    → (save_settings true true c (
        save_external_links true true b
          (save_quick_links true true a (record w { row = some s })))).0.row
      ≡ some (record (with_changes c s) { quick_links = some a; external_links = some b })
unfolding save_settings save_quick_links save_external_links write_quick_links write_external_links
    set_user_settings begin_quick_links end_quick_links begin_external_links end_external_links
save_settings_at s a b c w = refl

-- If the server has a row, then saving quick links, external links and changes of settings, one
-- after another, leaves all three in the row and its other fields as they were.
pub saves_keep :
    (s : UserSettings) (a : List QuickLink) (b : List ExternalLink) (c : Changes) (w : World)
    → w.row ≡ some s
    → (save_settings true true c
        (save_external_links true true b (save_quick_links true true a w))).0.row
      ≡ some (record (with_changes c s) { quick_links = some a; external_links = some b })
saves_keep s a b c w e =
    ap
      (λ row.
        (save_settings true true c (
          save_external_links true true b
            (save_quick_links true true a (record w { row = row })))).0.row)
      e
    ∙ save_settings_at s a b c w
