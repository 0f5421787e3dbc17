-- ===== src/Store/Assoc.antt =====
-- A store that meets the interface of `map`: an association list with at most one entry for a key.
use mathlib.Core.List.{Memᴰ}
use mathlib.Core.HLevel.{Σ_prop_path}
use bezel_custom.Prelude.{
  eq_refl, ap, sym, Bool-cases, inl, inr, ◌≡◌, refl, String, Bool, true, false, Option, none, some,
  List, [], ◌∷◌, arith, str_eq, eq_iff, if◌then◌else◌, map,
}
use bezel_custom.Store.{MapStore}

module _ {V : Type 0} where
  abbrev pub lookup : List (String × V) → String → Option V
  lookup [] k = none
  lookup ((j, v) ∷ l) k = if str_eq j k then some v else lookup l k

  abbrev pub without : List (String × V) → String → List (String × V)
  without [] k = []
  without ((j, v) ∷ l) k = let rest = without l k in if str_eq j k then rest else (j, v) ∷ rest

  abbrev pub write : List (String × V) → String → Option V → List (String × V)
  write l k none = without l k
  write l k (some v) = (k, v) ∷ without l k

  lookup-without :
      (l : List (String × V)) (k j : String)
      → lookup (without l k) j ≡ (if str_eq k j then none else lookup l j)
  lookup-without [] k j = ground arith
  lookup-without ((i, v) ∷ l) k j =
      ground (arith, lookup-without l k j, eq_iff i k, eq_iff i j, eq_iff k j)

  pub lookup-write :
      (l : List (String × V)) (k j : String) (v : Option V)
      → lookup (write l k v) j ≡ (if str_eq k j then v else lookup l j)
  lookup-write l k j none = lookup-without l k j
  lookup-write l k j (some v) = ground (arith, lookup-without l k j)

  pub without-absent : (l : List (String × V)) (k : String) → lookup l k ≡ none → without l k ≡ l
  without-absent [] k h = refl
  without-absent ((j, v) ∷ l) k h = ground (arith, without-absent l k)

  abbrev pub changed : Option V → Option V → Bool
  changed none none = false
  changed _ _ = true

  pub eq_of_unchanged : (a b : Option V) → changed a b ≡ false → a ≡ b
  eq_of_unchanged none none h = refl
  eq_of_unchanged none (some b) h = cc
  eq_of_unchanged (some a) b h = cc

module _ {V : Type 0} where
  -- No key stands twice.
  abbrev pub is_unique : List (String × V) → Bool
  is_unique [] = true
  is_unique ((k, v) ∷ l) = elim (lookup l k) [ none ↦ is_unique l | some _ ↦ false ]

  is_unique-tail :
      (k : String) (v : V) (l : List (String × V))
      → is_unique ((k, v) ∷ l) ≡ true
      → (lookup l k ≡ none) × (is_unique l ≡ true)
  is_unique-tail k v l h = ground (arith, h)

  is_unique-without :
      (l : List (String × V)) (k : String) → is_unique l ≡ true → is_unique (without l k) ≡ true
  is_unique-without [] k h = refl
  is_unique-without ((j, v) ∷ l) k h = ground (
    arith,
    is_unique-tail j v l,
    is_unique-without l k,
    lookup-without l k j,
    eq_iff j k,
    eq_iff k j,
  )

  pub is_unique-write :
      (l : List (String × V)) (k : String) (v : Option V)
      → is_unique l ≡ true
      → is_unique (write l k v) ≡ true
  is_unique-write l k none h = is_unique-without l k h
  is_unique-write l k (some v) h =
      ground (arith, is_unique-without l k, lookup-without l k k, eq_iff k k)

  abbrev pub entry_values : List (String × V) → List V
  entry_values l = map (λ p. p.1) l

  pub mem-lookup :
      (l : List (String × V)) (v : V)
      → is_unique l ≡ true
      → Memᴰ v (entry_values l)
      → (k : String) × (lookup l k ≡ some v)
  mem-lookup [] v h m = elim m [ ]
  mem-lookup ((j, w) ∷ l) v h (Memᴰ.head e) = (j, rw (eq_refl j) (ap some (sym e)))
  mem-lookup ((j, w) ∷ l) v h (Memᴰ.tail m) =
      let (absent, rest) = is_unique-tail j w l h in
      let (k, found) = mem-lookup l v rest m in
      (
        k,
        elim (Bool-cases (str_eq j k)) [
          | inl same ↦ absurd (ground (arith, absent, found, same, eq_iff j k))
          | inr other ↦ rw other found
        ],
      )

  pub lookup-mem :
      (l : List (String × V)) (k : String) (v : V) → lookup l k ≡ some v → Memᴰ v (entry_values l)
  lookup-mem [] k v h = absurd (ground (arith, h))
  lookup-mem ((j, w) ∷ l) k v h = elim (Bool-cases (str_eq j k)) [
    | inl same ↦ Memᴰ.head (ground (arith, h, same))
    | inr other ↦ Memᴰ.tail (lookup-mem l k v (ground (arith, h, other)))
  ]

-- A list of entries with no key twice.
abbrev pub Entries : Type 0 → Type 0
Entries V = (l : List (String × V)) × (is_unique l ≡ true)

module _ {V : Type 0} where
  abbrev pub set_entry : Entries V → String → Option V → Entries V
  set_entry (l, u) k v = (write l k v, is_unique-write l k v u)

  pub set_entry-absent : (s : Entries V) (k : String) → lookup s.0 k ≡ none → set_entry s k none ≡ s
  set_entry-absent (l, u) k h = Σ_prop_path (λ x. (hlevel)) (without-absent l k h)

abbrev pub assoc_store : (V : Type 0) → MapStore V
assoc_store V = record {
  Store = Entries V;
  empty = ([], refl);
  value = λ s k. lookup s.0 k;
  set_key = set_entry;
  values = λ s. entry_values s.0;
  notifies = changed;
  value-empty = λ k. refl;
  value-set_key = λ s k j v. lookup-write s.0 k j v;
  values-empty = refl;
  set_key-absent = set_entry-absent;
  notifies-none = refl;
  eq_of_silent = eq_of_unchanged;
  mem-values = λ s v. (mem-lookup s.0 v s.1, λ (k, h). lookup-mem s.0 k v h);
}
