-- ===== src/FleetActions/Results.antt =====
-- Which results of an action are told.
use bezel_custom.Prelude.{
  ℕ, suc, ◌+◌, ◌≡◌, refl, String, Bool, true, false, List, [], ◌∷◌, str_eq, eq_iff, arith, ◌&&◌,
  ◌||◌, if◌then◌else◌, length, Bool-cases, inl, inr,
}
use bezel_custom.FleetActions.{
  is_acted, is_skipped, is_failed, Entry, acted, skipped, failed, slice_7,
}

-- How many results are of none of the kinds.
abbrev pub untold : List Entry → ℕ
untold [] = 0
untold ((n, r) ∷ es) =
    let rest = untold es in if is_acted r || is_skipped r || is_failed r then rest else rest + 1

acted_not_failed : (r : String) → (is_acted r && is_failed r) ≡ false
acted_not_failed String.[] = refl
acted_not_failed (String.◌∷◌ c r) = ground arith

skipped_alone : (r : String) → is_skipped r ≡ true → (is_acted r || is_failed r) ≡ false
skipped_alone r h = elim (Bool-cases (str_eq r "up to date")) [
  | inl e ↦ rw ((eq_iff r "up to date").0 e) refl
  | inr e ↦
      let other : str_eq r "no updates" ≡ true = ground (arith, e, h) in
      rw ((eq_iff r "no updates").0 other) refl
]

length_if :
    {A : Type 0} (b : Bool) (x : A) (xs : List A)
    → length (if b then x ∷ xs else xs) ≡ (if b then length xs + 1 else length xs)
length_if true x xs = omega arith
length_if false x xs = refl

count_one :
    (a s f : Bool) (x y z u n : ℕ)
    → (a && f) ≡ false
    → ((s ≡ true) → (a || f) ≡ false)
    → x + y + z + u ≡ n
    → (if a then x + 1 else x)
        + (if s then y + 1 else y)
        + (if f then z + 1 else z)
        + (if a || s || f then u else u + 1)
      ≡ suc n
count_one true true f x y z u n p q e = ground (arith, q refl, e)
count_one true false true x y z u n p q e = ground (arith, p)
count_one true false false x y z u n p q e = omega (arith, e)
count_one false true true x y z u n p q e = ground (arith, q refl, e)
count_one false true false x y z u n p q e = omega (arith, e)
count_one false false true x y z u n p q e = omega (arith, e)
count_one false false false x y z u n p q e = omega (arith, e)

-- No result is told twice: the systems that started, the number of those with nothing to do and
-- the failures are, with the results of no known kind, as many as the results.
pub told_once :
    (es : List Entry) → length (acted es) + skipped es + length (failed es) + untold es ≡ length es
unfolding acted skipped failed
told_once [] = refl
told_once ((n, r) ∷ es) =
    rw (length_if (is_acted r) n (acted es), length_if (is_failed r) (n, slice_7 r) (failed es))
      (count_one (is_acted r) (is_skipped r) (is_failed r) (length (acted es)) (skipped es)
        (length (failed es)) (untold es) (length es) (acted_not_failed r) (skipped_alone r)
        (told_once es))
