-- ===== src/QuietHours/Subscription.antt =====
-- The list of windows that realtime events keep.
use bezel_custom.Prelude.{
  ◌≡◌, String, Option, none, some, List, [], ◌∷◌, arith, if◌then◌else◌, str_eq, eq_iff,
}
use bezel_custom.QuietHours.{QuietHoursRecord, Action, create, update, delete, on_event}

-- The first record of the list with an id.
abbrev pub by_id : String → List QuietHoursRecord → Option QuietHoursRecord
by_id id [] = none
by_id id (r ∷ rs) = let rest = by_id id rs in if str_eq r.id id then some r else rest

-- What stands under the id of an event after it.
abbrev pub after : Action → QuietHoursRecord → Option QuietHoursRecord → Option QuietHoursRecord
after create r before = some r
after update r none = none
after update r (some before) = some r
after delete r before = none

-- An event changes what stands under its own id only: a create puts its record there, an update
-- replaces a record that is there and adds none, a delete leaves none.
pub by_id-on_event :
    (action : Action) (r : QuietHoursRecord) (rs : List QuietHoursRecord) (id : String)
    → by_id id (on_event action r rs)
      ≡ (if str_eq r.id id then after action r (by_id id rs) else by_id id rs)
unfolding on_event
by_id-on_event create r rs id = ground arith
by_id-on_event update r [] id = ground arith
by_id-on_event update r (x ∷ xs) id =
    ground (arith, by_id-on_event update r xs id, eq_iff x.id r.id, eq_iff x.id id, eq_iff r.id id)
by_id-on_event delete r [] id = ground arith
by_id-on_event delete r (x ∷ xs) id =
    ground (arith, by_id-on_event delete r xs id, eq_iff x.id r.id, eq_iff x.id id, eq_iff r.id id)
