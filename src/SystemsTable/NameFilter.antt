-- ===== src/SystemsTable/NameFilter.antt =====
-- The filter of the column of names, which keeps texts in lower case between calls.
use bezel_custom.Prelude.{
  ◌≡◌, refl, sym, ap, ◌∙◌, String, Bool, true, false, Option, none, some, some-injective, List, [],
  ◌∷◌, map, str_eq, eq_iff, if◌then◌else◌, Bool-cases, inl, inr, Option-cases,
}
use bezel_custom.Dict.{Dict, get, put, get-put}
use bezel_custom.Search.{includes}
use bezel_custom.Systems.{SystemStatus, pending}

-- The variables that the filter function closes over.
pub record Cache : Type 0 where
  pub filter_input : String
  pub filter_input_lower : String
  pub names : Dict String

pub new_cache : Cache
new_cache = record { filter_input = ""; filter_input_lower = ""; names = [] }

-- `toLowerCase` and the translated labels of three statuses.
module _ (lower : String → String) (label : SystemStatus → String) where
  pub status_translation : SystemStatus → Option String
  status_translation pending = none
  status_translation status = some (lower (label status))

  pub take_input : String → Cache → Cache
  take_input input c =
      if str_eq input c.filter_input
      then c
      else record c { filter_input = input; filter_input_lower = lower input }

  -- the name in lower case, from the cache if it is there
  pub name_lower : String → Cache → String
  unfolding get
  name_lower name c = elim (get c.names name) [ none ↦ lower name | some text ↦ text ]

  pub keep_name : String → Cache → Cache
  unfolding get put
  keep_name name c = elim (get c.names name) [
    | none ↦ record c { names = put c.names name (lower name) }
    | some text ↦ c
  ]

  pub matches_status : SystemStatus → String → Bool
  unfolding status_translation
  matches_status status text = elim (status_translation status) [
    | none ↦ false
    | some translation ↦ includes translation text
  ]

  -- a call of the filter function: what it closes over afterwards, and its result
  pub filter_row : String → SystemStatus → String → Cache → Cache × Bool
  unfolding take_input name_lower keep_name matches_status
  filter_row name status input c =
      let taken : Cache = take_input input c in
      let text : String = name_lower name taken in
      let found : Bool = includes text taken.filter_input_lower in
      let matches : Bool = matches_status status taken.filter_input_lower in
      (keep_name name taken, if found then true else matches)

  -- Calls one after the other.
  pub filter_rows : List (String × SystemStatus × String) → Cache → List Bool
  unfolding filter_row
  filter_rows [] c = []
  filter_rows ((name, status, input) ∷ calls) c =
      (filter_row name status input c).1 ∷ filter_rows calls (filter_row name status input c).0

  -- The filter without a cache.
  abbrev pub plain_filter : String × SystemStatus × String → Bool
  plain_filter (name, status, input) =
      if includes (lower name) (lower input) then true else matches_status status (lower input)

  -- What is kept is in lower case.
  abbrev IsFresh : Cache → Type 0
  IsFresh c =
      (c.filter_input_lower ≡ lower c.filter_input)
      × ((name text : String) → get c.names name ≡ some text → text ≡ lower name)

  name_lower_lem : (name : String) (c : Cache) → IsFresh c → name_lower name c ≡ lower name
  unfolding name_lower
  name_lower_lem name c fresh = elim (Option-cases (get c.names name)) [
    | inl absent ↦ rw (name_lower, absent) refl
    | inr (text, there) ↦ rw (name_lower, there) (fresh.1 name text there)
  ]

  take_input-IsFresh :
      (input : String) (c : Cache)
      → IsFresh c
      → IsFresh (take_input input c) × ((take_input input c).filter_input_lower ≡ lower input)
  unfolding take_input
  take_input-IsFresh input c fresh = elim (Bool-cases (str_eq input c.filter_input)) [
    | inl same ↦ rw same (fresh, fresh.0 ∙ ap lower (sym ((eq_iff input c.filter_input).0 same)))
    | inr other ↦ rw other ((refl, fresh.1), refl)
  ]

  put_fresh :
      (name other text : String) (c : Cache)
      → IsFresh c
      → get (put c.names name (lower name)) other ≡ some text
      → text ≡ lower other
  put_fresh name other text c fresh e = elim (Bool-cases (str_eq name other)) [
    | inl same ↦
        sym (
          some-injective _ _ (
            sym (
              get-put c.names name other (lower name)
              ∙ ap (λ b. if b then some (lower name) else get c.names other) same)
            ∙ e))
        ∙ ap lower ((eq_iff name other).0 same)
    | inr differs ↦ fresh.1 other text (
        sym (
          get-put c.names name other (lower name)
          ∙ ap (λ b. if b then some (lower name) else get c.names other) differs)
        ∙ e)
  ]

  keep_name-IsFresh : (name : String) (c : Cache) → IsFresh c → IsFresh (keep_name name c)
  unfolding keep_name
  keep_name-IsFresh name c fresh = elim (Option-cases (get c.names name)) [
    | inl absent ↦
        rw (keep_name, absent) (fresh.0, λ other text e. put_fresh name other text c fresh e)
    | inr (text, there) ↦ rw (keep_name, there) fresh
  ]

  rows_from_fresh :
      (calls : List (String × SystemStatus × String)) (c : Cache)
      → IsFresh c
      → filter_rows calls c ≡ map plain_filter calls
  unfolding filter_rows
  rows_from_fresh [] c fresh = refl
  rows_from_fresh ((name, status, input) ∷ calls) c fresh =
      let (taken, low) = take_input-IsFresh input c fresh in
      let next : Cache = keep_name name (take_input input c) in
      rw
        (
          rows_from_fresh calls next (keep_name-IsFresh name (take_input input c) taken),
          name_lower_lem name (take_input input c) taken,
          low,
        )
        refl

-- For any calls of the filter function one after the other, with any names, statuses and filter
-- texts, the texts that it keeps in lower case change no result: each is that of looking for the
-- filter text in lower case in the name and in the translated status. The empty text is its own
-- lower case.
pub filter_rows_lem :
    (lower : String → String) (label : SystemStatus → String)
    (calls : List (String × SystemStatus × String))
    → lower "" ≡ ""
    → filter_rows lower label calls new_cache ≡ map (plain_filter lower label) calls
unfolding new_cache get
filter_rows_lem lower label calls empty =
    rows_from_fresh lower label calls new_cache (sym empty, λ name text e. cc)
