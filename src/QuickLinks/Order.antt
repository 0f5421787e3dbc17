-- ===== src/QuickLinks/Order.antt =====
-- What moving a link does to the order within its own category.
pub mod Search
pub mod Swap
use bezel_custom.Prelude.{
  ℕ, zero, suc, ◌+◌, ◌-◌, ◌≤◌, ◌<◌, ◌≡◌, refl, String, Bool, true, false, Option, none, some, List,
  [], ◌∷◌, ◌++◌, arith, str_eq, eq_iff, eq_refl, if◌then◌else◌, keep, take, drop, length, get_elem?,
  ap, sym, subst, some-injective, Option-cases, Bool-cases, inl, inr, ◌∙◌, ◌⊎◌, ltb, ltb→lt,
}
use bezel_custom.QuickLinks.{
  QuickLink, category_of, has_category, Direction, left, right, find_before, find_after, target,
  remove_at, insert_at, relocate, move_at, move_link, find_link,
}
use bezel_custom.QuickLinks.Move.{in_category, linked, find_link-linked}
use bezel_custom.QuickLinks.Order.Search.{
  Clear, Clear-within, find_before_lem, find_before-none, find_after_lem, find_after-none,
  stands-link,
}
use bezel_custom.QuickLinks.Order.Swap.{
  swap_next, swapped, in_category-take, moves-swap, take-Clear, take-next, last-Clear,
  swap_next-end,
}

module _ (links : List QuickLink) (idx : ℕ) (l : QuickLink)
    (at : get_elem? links idx ≡ some l) where
  own : str_eq (category_of l) (category_of l) ≡ true
  own = eq_refl (category_of l)

  relocate-left :
      in_category (category_of l) (relocate (target left (category_of l) links idx) idx l links)
      ≡ swapped left
          (length (in_category (category_of l) (take idx links)))
          (in_category (category_of l) links)
  unfolding target relocate
  relocate-left = elim (Option-cases (find_before (category_of l) links idx)) [
    | inl e ↦
        rw (e, take-Clear (category_of l) links idx (find_before-none (category_of l) links idx e))
          refl
    | inr (j, e) ↦
        let (lt, stands, clear) = find_before_lem (category_of l) links idx j e in
        let (b, at_j, own_b) = stands-link (category_of l) (get_elem? links j) stands in
        rw (e, take-next (category_of l) links j idx b at_j own_b lt clear)
          (moves-swap (category_of l) links j idx b l at_j at own_b own lt clear).0
  ]

  behind :
      find_after (category_of l) links (length links - (idx + 1)) (idx + 1) ≡ none
      → Clear (category_of l) links (suc idx) (length links)
  behind e =
      Clear-within (category_of l) links (idx + 1) (idx + 1 + (length links - (idx + 1))) (suc idx)
        (length links) (omega arith) (omega arith)
        (find_after-none (category_of l) links (length links - (idx + 1)) (idx + 1) e)

  relocate-right :
      in_category (category_of l) (relocate (target right (category_of l) links idx) idx l links)
      ≡ swapped right
          (length (in_category (category_of l) (take idx links)))
          (in_category (category_of l) links)
  unfolding target relocate
  relocate-right =
      elim (Option-cases (find_after (category_of l) links (length links - (idx + 1)) (idx + 1))) [
        | inl e ↦ rw e (
            sym (
              swap_next-end (length (in_category (category_of l) (take idx links)))
                (in_category (category_of l) links)
                (omega (arith, last-Clear (category_of l) links idx l at own (behind e)))))
        | inr (j, e) ↦
            let (le, stands, clear) =
              find_after_lem (category_of l) links (length links - (idx + 1)) (idx + 1) j e in
            let (b, at_j, own_b) = stands-link (category_of l) (get_elem? links j) stands in
            rw e
              (moves-swap (category_of l) links idx j l b at at_j own own_b (omega (arith, le)) (
                Clear-within (category_of l) links (idx + 1) j (suc idx) j (omega arith)
                  (omega arith) clear)).1
      ]

  relocate-swapped :
      (d : Direction)
      → in_category (category_of l) (relocate (target d (category_of l) links idx) idx l links)
        ≡ swapped d
            (length (in_category (category_of l) (take idx links)))
            (in_category (category_of l) links)
  relocate-swapped left = relocate-left
  relocate-swapped right = relocate-right

-- Moving the link that an id stands for swaps it, among the links of its category, with the one
-- before it or after it, by the direction; the first one does not move left and the last one does
-- not move right.
pub move_link-swapped :
    (id : String) (d : Direction) (links : List QuickLink) (l : QuickLink)
    → linked id links ≡ some l
    → (p : ℕ) × (get_elem? (in_category (category_of l) links) p ≡ some l)
      × (in_category (category_of l) (move_link id d links)
          ≡ swapped d p (in_category (category_of l) links))
unfolding move_link move_at
move_link-swapped id d links l e =
    let (i, found, at) = find_link-linked id links l e in
    (
      length (in_category (category_of l) (take i links)),
      in_category-take (category_of l) links i l at (eq_refl (category_of l)),
      rw (found, move_at, at) (relocate-swapped links i l at d),
    )
