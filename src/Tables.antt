-- ===== src/Tables.antt =====
-- The rows of internal/site/src/components/containers-table/containers-table.tsx and of
-- components/systemd-table/systemd-table.tsx, which answers of the server are merged into. Times are
-- milliseconds.
pub mod ServiceSheet
pub mod ContainerSheet
pub mod Merge
pub mod Filters
mod Tests
use bezel_custom.Prelude.{
  ℕ, ◌+◌, max, String, Bool, true, false, not, Option, none, some, List, [], ◌∷◌, ◌++◌, str_eq, ltb,
  ◌&&◌, if◌then◌else◌, keep,
}

-- The fields of ContainerRecord and SystemdRecord that the merge reads.
pub record Row : Type 0 where
  pub id : String
  pub name : String
  pub system : String
  pub updated : ℕ

-- `Math.abs(last - updated) < 70_000`
abbrev pub is_near : ℕ → Row → Bool
is_near last r = ltb last (r.updated + 70_000) && ltb r.updated (last + 70_000)

-- `last - updated < 70_000`
abbrev pub is_recent : ℕ → Row → Bool
is_recent last r = ltb last (r.updated + 70_000)

-- `items.at(-1)?.updated ?? 0`
pub last_updated : List Row → ℕ
last_updated [] = 0
last_updated (r ∷ []) = r.updated
last_updated (_ ∷ r ∷ rs) = last_updated (r ∷ rs)

-- The containers table tells rows apart by their id, the services table by their name.
module _ (key : Row → String) where
  -- `has` of the set of the keys of rows
  pub has_key : String → List Row → Bool
  has_key k [] = false
  has_key k (r ∷ rs) = let rest = has_key k rs in if str_eq (key r) k then true else rest

  -- The fetched rows that are near the last update, and the rows from before that have no key of
  -- theirs and are recent.
  pub merge_at : ℕ → List Row → List Row → List Row
  unfolding has_key
  merge_at last items current =
      let fresh : List Row = keep (is_near last) items in
      fresh ++ keep (λ r. not (has_key (key r) fresh) && is_recent last r) current

  pub merge_rows : Row → List Row → List Row → List Row
  unfolding merge_at last_updated
  merge_rows first rest current =
      merge_at (max first.updated (last_updated (first ∷ rest))) (first ∷ rest) current

-- An answer for a system, or for all of them, at the rows that the table has.
pub receive_containers : Option String → List Row → List Row → List Row
unfolding merge_rows
receive_containers none [] current = []
receive_containers (some system) [] current = keep (λ r. not (str_eq r.system system)) current
receive_containers system (r ∷ rs) current = merge_rows (λ x. x.id) r rs current

pub receive_services : List Row → List Row → List Row
unfolding merge_rows
receive_services [] current = current
receive_services (r ∷ rs) current = merge_rows (λ x. x.name) r rs current
