-- ===== src/Fingerprints/Tokens.antt =====
-- The tokens that are kept, and the order of the list.
use bezel_custom.Prelude.{
  ◌≡◌, refl, ap, ◌∙◌, String, Bool, true, false, Option, some, List, [], ◌∷◌, str_eq, if◌then◌else◌,
  Bool-cases, inl, inr,
}
use bezel_custom.Dict.{Dict, get, put, get-put}
use bezel_custom.Fingerprints.{FingerprintRecord, insert, sort_fingerprints, update_tokens}

-- The token of the last record of a system, or what was there before.
abbrev pub last_token : String → List FingerprintRecord → Option String → Option String
last_token system [] before = before
last_token system (f ∷ fs) before =
    last_token system fs (if str_eq f.system system then some f.token else before)

-- After the list of fingerprints changed, the kept token of a system is that of its last
-- fingerprint in the list, and the one from before if the list has none of it.
pub get-update_tokens :
    (fs : List FingerprintRecord) (tokens : Dict String) (system : String)
    → get (update_tokens fs tokens) system ≡ last_token system fs (get tokens system)
unfolding update_tokens
get-update_tokens [] tokens system = refl
get-update_tokens (f ∷ fs) tokens system =
    get-update_tokens fs (put tokens f.system f.token) system
    ∙ ap (last_token system fs) (get-put tokens f.system system f.token)

module _ (at_most : String → String → Bool)
    (total : (a b : String) → at_most a b ≡ false → at_most b a ≡ true) where
  -- The first record of a list may stand after a name.
  abbrev pub Follows : String → List FingerprintRecord → Type 0
  Follows name [] = Unit
  Follows name (f ∷ fs) = at_most name f.system_name ≡ true

  abbrev pub IsSorted : List FingerprintRecord → Type 0
  IsSorted [] = Unit
  IsSorted (f ∷ fs) = Follows f.system_name fs × IsSorted fs

  insert-Follows :
      (name : String) (f : FingerprintRecord) (fs : List FingerprintRecord)
      → at_most name f.system_name ≡ true
      → Follows name fs
      → Follows name (insert at_most f fs)
  unfolding insert
  insert-Follows name f [] h k = h
  insert-Follows name f (g ∷ gs) h k = elim (Bool-cases (at_most f.system_name g.system_name)) [
    | inl first ↦ rw first h
    | inr later ↦ rw later k
  ]

  insert-IsSorted :
      (f : FingerprintRecord) (fs : List FingerprintRecord)
      → IsSorted fs
      → IsSorted (insert at_most f fs)
  unfolding insert
  insert-IsSorted f [] s = (tt, tt)
  insert-IsSorted f (g ∷ gs) (follows, s) =
      elim (Bool-cases (at_most f.system_name g.system_name)) [
        | inl first ↦ rw first (first, (follows, s))
        | inr later ↦ rw later (
          insert-Follows g.system_name f gs (total f.system_name g.system_name later) follows,
          insert-IsSorted f gs s,
        )
      ]

  sort_fingerprints-IsSorted :
      (fs : List FingerprintRecord) → IsSorted (sort_fingerprints at_most fs)
  unfolding sort_fingerprints
  sort_fingerprints-IsSorted [] = tt
  sort_fingerprints-IsSorted (f ∷ fs) =
      insert-IsSorted f (sort_fingerprints at_most fs) (sort_fingerprints-IsSorted fs)
