-- ===== src/SystemPage/Gpus.antt =====
-- The GPU charts of internal/site/src/components/routes/system.tsx: which of them the page shows, and
-- the engines that GpuEnginesChart draws.
use Prim.Native.Char.{code}
use bezel_custom.Prelude.{
  is_there, ◌≡◌, refl, String, Bool, true, false, Option, none, some, List, [], ◌∷◌, map, arith,
  ltb, ◌&&◌, ◌||◌, ◌==◌, if◌then◌else◌,
}
use bezel_custom.Dict.{Dict}

-- The power, the power of the package and the engines of a GPU, where the agent sent them.
pub record Gpu (A : Type 0) : Type 0 where
  pub power : Option A
  pub package_power : Option A
  pub engines : Option (Dict A)

pub record Flags : Type 0 where
  pub has_engines : Bool
  pub has_power : Bool

abbrev no_flags : Flags
no_flags = record { has_engines = false; has_power = false }

-- `gpus[id].p !== undefined || gpus[id].pp !== undefined`
abbrev pub draws_power : {A : Type 0} → Gpu A → Bool
draws_power gpu = is_there gpu.power || is_there gpu.package_power

abbrev pub both : Flags → Bool
both f = f.has_engines && f.has_power

-- The names of the engines, sorted by their characters.
abbrev pub is_after : String → String → Bool
is_after String.[] t = false
is_after (String.◌∷◌ c s) String.[] = true
is_after (String.◌∷◌ c s) (String.◌∷◌ d t) =
    let rest = is_after s t in if code c == code d then rest else ltb (code d) (code c)

unfoldable pub insert_name : String → List String → List String
insert_name name [] = name ∷ []
insert_name name (n ∷ names) =
    let rest = insert_name name names in if is_after name n then n ∷ rest else name ∷ n ∷ names

unfoldable pub sorted : List String → List String
sorted [] = []
sorted (name ∷ names) = insert_name name (sorted names)

-- What a loop that does not end early would set.
abbrev union : Flags → Bool → Bool → Flags
union f e p = record { has_engines = f.has_engines || e; has_power = f.has_power || p }

module _ {A : Type 0} where
  abbrev pub note : Gpu A → Flags → Flags
  note gpu f = record {
    has_engines = f.has_engines || is_there gpu.engines;
    has_power = f.has_power || draws_power gpu;
  }

  -- the loop over the GPUs of a record, which ends when both flags are set
  pub scan_gpus : Dict (Gpu A) → Flags → Flags
  scan_gpus [] f = f
  scan_gpus ((id, gpu) ∷ rest) f =
      let on = scan_gpus rest (note gpu f) in if both (note gpu f) then note gpu f else on

  abbrev pub scan_record : Option (Dict (Gpu A)) → Flags → Flags
  scan_record none f = f
  scan_record (some gpus) f = scan_gpus gpus f

  -- the loop over the records, each with its `stats?.g`
  pub scan_stats : List (Option (Dict (Gpu A))) → Flags → Flags
  scan_stats [] f = f
  scan_stats (g ∷ rest) f = let on = scan_stats rest (scan_record g f) in if both f then f else on

  -- `systemStats.at(-1)?.stats?.g`
  unfoldable pub last_gpus : List (Option (Dict (Gpu A))) → Option (Dict (Gpu A))
  last_gpus [] = none
  last_gpus (g ∷ []) = g
  last_gpus (_ ∷ g ∷ rest) = last_gpus (g ∷ rest)

  unfoldable pub gpu_flags : List (Option (Dict (Gpu A))) → Flags
  gpu_flags stats = elim (last_gpus stats) [ none ↦ no_flags | some _ ↦ scan_stats stats no_flags ]

  unfoldable pub keys : Dict A → List String
  keys d = map (λ (p : String × A). p.0) d

  -- the first GPU of a record that has engines
  unfoldable pub engines_of : Dict (Gpu A) → Option (String × List String)
  engines_of [] = none
  engines_of ((id, gpu) ∷ rest) = elim gpu.engines [
    | none ↦ engines_of rest
    | some e ↦ some (id, sorted (keys e))
  ]

  abbrev pub record_engines : Option (Dict (Gpu A)) → Option (String × List String)
  record_engines none = none
  record_engines (some gpus) = engines_of gpus

  -- the loop of GpuEnginesChart, from the last record back
  unfoldable pub find_engines : List (Option (Dict (Gpu A))) → Option (String × List String)
  find_engines [] = none
  find_engines (g ∷ rest) = elim (find_engines rest) [
    | none ↦ record_engines g
    | some found ↦ some found
  ]

  -- whether a GPU of some record passes a test
  abbrev pub any_gpu : (Gpu A → Bool) → Dict (Gpu A) → Bool
  any_gpu p [] = false
  any_gpu p ((id, gpu) ∷ rest) = p gpu || any_gpu p rest

  abbrev pub record_gpu : (Gpu A → Bool) → Option (Dict (Gpu A)) → Bool
  record_gpu p none = false
  record_gpu p (some gpus) = any_gpu p gpus

  abbrev pub some_gpu : (Gpu A → Bool) → List (Option (Dict (Gpu A))) → Bool
  some_gpu p [] = false
  some_gpu p (g ∷ rest) = record_gpu p g || some_gpu p rest

  abbrev pub with_engines : Gpu A → Bool
  with_engines gpu = is_there gpu.engines

  scan_gpus_lem :
      (gpus : Dict (Gpu A)) (f : Flags)
      → scan_gpus gpus f ≡ union f (any_gpu with_engines gpus) (any_gpu draws_power gpus)
  unfolding scan_gpus
  scan_gpus_lem [] f = ground arith
  scan_gpus_lem ((id, gpu) ∷ rest) f = ground (arith, scan_gpus_lem rest (note gpu f))

  scan_stats_lem :
      (stats : List (Option (Dict (Gpu A)))) (f : Flags)
      → scan_stats stats f ≡ union f (some_gpu with_engines stats) (some_gpu draws_power stats)
  unfolding scan_stats
  scan_stats_lem [] f = ground arith
  scan_stats_lem (none ∷ rest) f = ground (arith, scan_stats_lem rest f)
  scan_stats_lem (some gpus ∷ rest) f =
      ground (arith, scan_gpus_lem gpus f, scan_stats_lem rest (scan_gpus gpus f))

  engines_of_lem : (gpus : Dict (Gpu A)) → is_there (engines_of gpus) ≡ any_gpu with_engines gpus
  unfolding engines_of
  engines_of_lem [] = refl
  engines_of_lem ((id, gpu) ∷ rest) = ground (arith, engines_of_lem rest)

  find_engines_lem :
      (stats : List (Option (Dict (Gpu A))))
      → is_there (find_engines stats) ≡ some_gpu with_engines stats
  unfolding find_engines
  find_engines_lem [] = refl
  find_engines_lem (none ∷ rest) = ground (arith, find_engines_lem rest)
  find_engines_lem (some gpus ∷ rest) = ground (arith, find_engines_lem rest, engines_of_lem gpus)

  -- If the last record has GPUs, the flags of engines and of power are set exactly if some GPU of
  -- some record has engines, or power, and the chart of engines finds a GPU to draw exactly if the
  -- flag of engines is set.
  pub gpu_flags_lem :
      (stats : List (Option (Dict (Gpu A)))) (gpus : Dict (Gpu A))
      → last_gpus stats ≡ some gpus
      → ((gpu_flags stats).has_engines ≡ some_gpu with_engines stats)
        × ((gpu_flags stats).has_power ≡ some_gpu draws_power stats)
        × (is_there (find_engines stats) ≡ (gpu_flags stats).has_engines)
  unfolding gpu_flags
  gpu_flags_lem stats gpus e =
      ground (arith, e, scan_stats_lem stats no_flags, find_engines_lem stats)
