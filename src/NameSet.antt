-- ===== src/NameSet.antt =====
-- JavaScript's `Set` of texts: its entries in the order of insertion, each once.
use bezel_custom.Prelude.{
  String, Bool, true, false, not, List, [], ◌∷◌, ◌++◌, str_eq, if◌then◌else◌, keep, eq_iff, arith,
  refl, subst, ◌≡◌, ◌&&◌, ◌||◌, Bool-cases, inl, inr,
}

unfoldable pub has : String → List String → Bool
has name [] = false
has name (x ∷ xs) = let rest = has name xs in if str_eq x name then true else rest

unfoldable pub add : String → List String → List String
unfolding has
add name names = if has name names then names else names ++ name ∷ []

unfoldable pub delete : String → List String → List String
delete name names = keep (λ x. not (str_eq x name)) names

pub has-append :
    (name : String) (xs ys : List String) → has name (xs ++ ys) ≡ (has name xs || has name ys)
unfolding has
has-append name [] ys = refl
has-append name (x ∷ xs) ys = ground (arith, has-append name xs ys)

pub has-add :
    (x name : String) (xs : List String) → has x (add name xs) ≡ (str_eq name x || has x xs)
unfolding add has
has-add x name xs = elim (Bool-cases (has name xs)) [
  | inl there ↦ rw there (elim (Bool-cases (str_eq name x)) [
    | inl same ↦ rw same (subst (λ y. has y xs ≡ true) ((eq_iff name x).0 same) there)
    | inr other ↦ rw other refl
  ])
  | inr absent ↦ rw absent (ground (arith, has-append x xs (name ∷ [])))
]

pub has-delete :
    (x name : String) (xs : List String)
    → has x (delete name xs) ≡ (not (str_eq name x) && has x xs)
unfolding delete has
has-delete x name [] = ground arith
has-delete x name (y ∷ ys) =
    ground (arith, has-delete x name ys, eq_iff y name, eq_iff name x, eq_iff y x)
