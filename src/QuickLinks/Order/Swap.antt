-- ===== src/QuickLinks/Order/Swap.antt =====
-- Links of a category that change places.
use bezel_custom.Prelude.{
  ℕ, zero, suc, ◌≤◌, ◌<◌, ◌≡◌, refl, String, true, false, some, List, [], ◌∷◌, arith, str_eq, take,
  length, get_elem?, ap, sym, subst, some-injective, Bool-cases, inl, inr, ◌∙◌,
}
use bezel_custom.QuickLinks.{QuickLink, category_of, Direction, left, right, remove_at, insert_at}
use bezel_custom.QuickLinks.Move.{in_category}
use bezel_custom.QuickLinks.Order.Search.{Clear, Clear-tail}

-- The items at a position and at the next one change places; nothing happens at the end.
abbrev pub swap_next : {A : Type 0} → ℕ → List A → List A
swap_next n [] = []
swap_next zero (x ∷ []) = x ∷ []
swap_next zero (x ∷ y ∷ rest) = y ∷ x ∷ rest
swap_next (suc n) (x ∷ xs) = x ∷ swap_next n xs

-- The item at a position changes places with the one before it or after it.
abbrev pub swapped : {A : Type 0} → Direction → ℕ → List A → List A
swapped left zero xs = xs
swapped left (suc n) xs = swap_next n xs
swapped right n xs = swap_next n xs

module _ (cat : String) where
  -- The links of the category up to an index at which there is one.
  pub in_category-take :
      (links : List QuickLink) (i : ℕ) (l : QuickLink)
      → get_elem? links i ≡ some l
      → str_eq (category_of l) cat ≡ true
      → get_elem? (in_category cat links) (length (in_category cat (take i links))) ≡ some l
  in_category-take [] i l e own = cc
  in_category-take (x ∷ xs) zero l e own =
      let same : x ≡ l = some-injective x l e in rw same (ground (arith, own))
  in_category-take (x ∷ xs) (suc i) l e own = ground (arith, in_category-take xs i l e own)

  -- The first link of the category when none stands before an index.
  first_in :
      (xs : List QuickLink) (h : ℕ) (c : QuickLink)
      → get_elem? xs h ≡ some c
      → str_eq (category_of c) cat ≡ true
      → Clear cat xs 0 h
      → in_category cat xs ≡ c ∷ in_category cat (remove_at h xs)
  first_in [] h c e own clear = cc
  first_in (x ∷ xs) zero c e own clear =
      let same : x ≡ c = some-injective x c e in rw same (ground (arith, own))
  first_in (x ∷ xs) (suc h) c e own clear =
      let other : str_eq (category_of x) cat ≡ false = clear 0 (omega arith) (omega arith) in
      ground (arith, other, first_in xs h c e own (Clear-tail cat x xs 0 0 h (omega arith) clear))

  -- A link put behind that first one.
  second_in :
      (xs : List QuickLink) (h : ℕ) (a c : QuickLink)
      → get_elem? xs h ≡ some c
      → str_eq (category_of a) cat ≡ true
      → str_eq (category_of c) cat ≡ true
      → Clear cat xs 0 h
      → in_category cat (insert_at (suc h) a xs) ≡ c ∷ a ∷ in_category cat (remove_at h xs)
  second_in [] h a c e own_a own clear = cc
  second_in (x ∷ xs) zero a c e own_a own clear =
      let same : x ≡ c = some-injective x c e in rw same (ground (arith, own, own_a))
  second_in (x ∷ xs) (suc h) a c e own_a own clear =
      let other : str_eq (category_of x) cat ≡ false = clear 0 (omega arith) (omega arith) in
      ground (
        arith,
        other,
        second_in xs h a c e own_a own (Clear-tail cat x xs 0 0 h (omega arith) clear),
      )

  -- Two links of the category with none between them: taking either to the place of the other swaps them.
  pub moves-swap :
      (links : List QuickLink) (lo hi : ℕ) (a c : QuickLink)
      → get_elem? links lo ≡ some a
      → get_elem? links hi ≡ some c
      → str_eq (category_of a) cat ≡ true
      → str_eq (category_of c) cat ≡ true
      → lo < hi
      → Clear cat links (suc lo) hi
      → (in_category cat (insert_at lo c (remove_at hi links))
          ≡ swap_next (length (in_category cat (take lo links))) (in_category cat links))
        × (in_category cat (insert_at hi a (remove_at lo links))
            ≡ swap_next (length (in_category cat (take lo links))) (in_category cat links))
  moves-swap [] lo hi a c ea ec own_a own lt clear = cc
  moves-swap (x ∷ xs) lo zero a c ea ec own_a own lt clear = ground (arith, lt)
  moves-swap (x ∷ xs) zero (suc h) a c ea ec own_a own lt clear =
      let same : x ≡ a = some-injective x a ea in
      let clear' : Clear cat xs 0 h = Clear-tail cat x xs 1 0 h (omega arith) clear in
      let own_x : str_eq (category_of x) cat ≡ true =
        subst (λ y. str_eq (category_of y) cat ≡ true) (sym same) own_a in
      let swaps : c ∷ x ∷ in_category cat (remove_at h xs) ≡ swap_next 0 (x ∷ in_category cat xs) =
        ap (λ zs. swap_next 0 (x ∷ zs)) (sym (first_in xs h c ec own clear')) in
      (
        rw (own, own_x) swaps,
        subst
            (λ y. in_category cat (insert_at (suc h) y xs) ≡ swap_next 0 (in_category cat (x ∷ xs)))
            same (rw own_x (second_in xs h x c ec own_x own clear' ∙ swaps)),
      )
  moves-swap (x ∷ xs) (suc l) (suc h) a c ea ec own_a own lt clear =
      let (to_left, to_right) =
        moves-swap xs l h a c ea ec own_a own (omega (arith, lt))
          (Clear-tail cat x xs (suc (suc l)) (suc l) h (omega arith) clear) in
      elim (Bool-cases (str_eq (category_of x) cat)) [
        | inl kept ↦ (rw kept (ap (λ zs. x ∷ zs) to_left), rw kept (ap (λ zs. x ∷ zs) to_right))
        | inr left_out ↦ (rw left_out to_left, rw left_out to_right)
      ]

  -- With no link of the category before an index, none stands in the part before it.
  pub take-Clear :
      (links : List QuickLink) (i : ℕ) → Clear cat links 0 i → in_category cat (take i links) ≡ []
  take-Clear links zero clear = refl
  take-Clear [] (suc i) clear = refl
  take-Clear (x ∷ xs) (suc i) clear =
      let other : str_eq (category_of x) cat ≡ false = clear 0 (omega arith) (omega arith) in
      ground (arith, other, take-Clear xs i (Clear-tail cat x xs 0 0 i (omega arith) clear))

  -- The links of the category up to the next one are one more.
  pub take-next :
      (links : List QuickLink) (lo hi : ℕ) (a : QuickLink)
      → get_elem? links lo ≡ some a
      → str_eq (category_of a) cat ≡ true
      → lo < hi
      → Clear cat links (suc lo) hi
      → length (in_category cat (take hi links)) ≡ suc (length (in_category cat (take lo links)))
  take-next [] lo hi a e own lt clear = cc
  take-next (x ∷ xs) lo zero a e own lt clear = ground (arith, lt)
  take-next (x ∷ xs) zero (suc h) a e own lt clear =
      let same : x ≡ a = some-injective x a e in
      let own_x : str_eq (category_of x) cat ≡ true =
        subst (λ y. str_eq (category_of y) cat ≡ true) (sym same) own in
      rw (own_x, take-Clear xs h (Clear-tail cat x xs 1 0 h (omega arith) clear)) refl
  take-next (x ∷ xs) (suc l) (suc h) a e own lt clear =
      let next =
        take-next xs l h a e own (omega (arith, lt))
          (Clear-tail cat x xs (suc (suc l)) (suc l) h (omega arith) clear) in
      elim (Bool-cases (str_eq (category_of x) cat)) [
        | inl kept ↦ rw kept (ap suc next)
        | inr left_out ↦ rw left_out next
      ]

  get_elem?-lt :
      (links : List QuickLink) (i : ℕ) (l : QuickLink)
      → get_elem? links i ≡ some l
      → i < length links
  get_elem?-lt [] i l e = cc
  get_elem?-lt (x ∷ xs) zero l e = omega arith
  get_elem?-lt (x ∷ xs) (suc i) l e = omega (arith, get_elem?-lt xs i l e)

  take-length : (links : List QuickLink) → take (length links) links ≡ links
  take-length [] = refl
  take-length (x ∷ xs) = ap (λ zs. x ∷ zs) (take-length xs)

  -- With no link of the category behind the one at an index, its place is the last.
  pub last-Clear :
      (links : List QuickLink) (i : ℕ) (l : QuickLink)
      → get_elem? links i ≡ some l
      → str_eq (category_of l) cat ≡ true
      → Clear cat links (suc i) (length links)
      → length (in_category cat links) ≡ suc (length (in_category cat (take i links)))
  last-Clear links i l e own clear =
      ap (λ xs. length (in_category cat xs)) (sym (take-length links))
      ∙ take-next links i (length links) l e own (get_elem?-lt links i l e) clear

pub swap_next-end : {A : Type 0} (n : ℕ) (xs : List A) → length xs ≤ suc n → swap_next n xs ≡ xs
swap_next-end n [] le = refl
swap_next-end zero (x ∷ []) le = refl
swap_next-end zero (x ∷ y ∷ rest) le = ground (arith, le)
swap_next-end (suc n) (x ∷ xs) le = ap (λ zs. x ∷ zs) (swap_next-end n xs (omega (arith, le)))
