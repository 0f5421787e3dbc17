-- ===== src/Router/Paths.antt =====
-- The joined paths have no two slashes in a row.
use Prim.Native.String
use text.Mathlib.TextLemmas.{nil-append, cons-append}
use bezel_custom.Prelude.{
  ℕ, suc, ◌≤◌, ◌≡◌, refl, String, Bool, true, false, arith, leb, ◌&&◌, if◌then◌else◌, Bool-cases,
  inl, inr,
}
use bezel_custom.Router.{is_slash, collapse_after, prepend_base_path}

-- No more than so many slashes stand in a row, `run` of them before the text.
abbrev pub fits : ℕ → ℕ → String → Bool
fits most run String.[] = leb run most
fits most run (String.◌∷◌ c s) =
    let longer = fits most (suc run) s in
    let over = fits most 0 s in if is_slash c then longer else (leb run most && over)

abbrev pub has_single_slashes : String → Bool
has_single_slashes s = fits 1 0 s

fits_bound : (most run : ℕ) (s : String) → fits most run s ≡ true → run ≤ most
fits_bound most run String.[] h = ground (arith, h)
fits_bound most run (String.◌∷◌ c s) h = elim (Bool-cases (is_slash c)) [
  | inl slash ↦
      let below : suc run ≤ most = fits_bound most (suc run) s (ground (arith, slash, h)) in
      omega (arith, below)
  | inr other ↦ ground (arith, other, h)
]

fits_more : (t : String) (j k : ℕ) → k ≤ suc j → fits 1 j t ≡ true → fits 2 k t ≡ true
fits_more String.[] j k le h = ground (arith, h)
fits_more (String.◌∷◌ c t) j k le h = elim (Bool-cases (is_slash c)) [
  | inl slash ↦ rw slash (fits_more t (suc j) (suc k) (omega arith) (ground (arith, slash, h)))
  | inr other ↦
      let over : fits 1 0 t ≡ true = ground (arith, other, h) in
      let few : leb j 1 ≡ true = ground (arith, other, h) in
      let few2 : leb k 2 ≡ true = ground (arith, few) in
      rw (other, few2) (fits_more t 0 0 (omega arith) over)
]

-- Texts of single slashes, one after the other, have at most two in a row.
fits-append :
    (s t : String) (run : ℕ)
    → fits 1 run s ≡ true
    → fits 1 0 t ≡ true
    → fits 2 run (String.◌++◌ s t) ≡ true
fits-append String.[] t run h k = rw (nil-append t) (fits_more t 0 run (fits_bound 1 run "" h) k)
fits-append (String.◌∷◌ c s) t run h k = elim (Bool-cases (is_slash c)) [
  | inl slash ↦
      rw (cons-append c s t, slash) (fits-append s t (suc run) (ground (arith, slash, h)) k)
  | inr other ↦
      let few : leb run 2 ≡ true = ground (arith, other, h) in
      rw (cons-append c s t, other, few) (fits-append s t 0 (ground (arith, other, h)) k)
]

-- What is left of a text with at most two slashes in a row: from its start, after a slash that may
-- be the first of a pair, and after a pair.
collapse_after_lem :
    (s : String)
    → (fits 2 0 s ≡ true → fits 1 0 (collapse_after false s) ≡ true)
      × (fits 2 1 s ≡ true → fits 1 0 (collapse_after true s) ≡ true)
      × (fits 2 2 s ≡ true → fits 1 1 (collapse_after false s) ≡ true)
unfolding collapse_after
collapse_after_lem String.[] = (λ h. refl, λ h. refl, λ h. refl)
collapse_after_lem (String.◌∷◌ c s) =
    let (start, pending, paired) = collapse_after_lem s in
    elim (Bool-cases (is_slash c)) [
      | inl slash ↦ (
        λ h. rw slash (pending (ground (arith, slash, h))),
        λ h. rw slash (paired (ground (arith, slash, h))),
        λ h. let many : 3 ≤ 2 = fits_bound 2 3 s (ground (arith, slash, h)) in ground (arith, many),
      )
      | inr other ↦ (
        λ h. rw other (rw other (start (ground (arith, other, h)))),
        λ h. rw other (rw other (start (ground (arith, other, h)))),
        λ h. rw other (rw other (start (ground (arith, other, h)))),
      )
    ]

-- A path put after a base path has no two slashes in a row, if neither of the two has.
pub prepend_base_path_lem :
    (base_path path : String)
    → has_single_slashes base_path ≡ true
    → has_single_slashes path ≡ true
    → has_single_slashes (prepend_base_path base_path path) ≡ true
unfolding prepend_base_path
prepend_base_path_lem base_path path h k =
    (collapse_after_lem (String.◌++◌ base_path path)).0 (fits-append base_path path 0 h k)
