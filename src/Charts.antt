-- ===== src/Charts.antt =====
-- internal/site/src/components/charts/hooks.ts: the totals and the colors of the containers in the
-- charts. A number of the stats is a whole number of the smallest unit that the agent sends.
pub mod Totals
pub mod Colors
mod Tests
use bezel_custom.Prelude.{
  ℕ, zero, suc, ◌+◌, ◌*◌, ◌%◌, String, Bool, true, false, Option, none, some, List, [], ◌∷◌, str_eq,
  leb, if◌then◌else◌, length,
}
use bezel_custom.Dict.{Dict, get, put}

pub record ContainerStats : Type 0 where
  pub c : Option ℕ
  pub m : Option ℕ
  pub b : Option (ℕ × ℕ)
  pub ns : Option ℕ
  pub nr : Option ℕ

-- A data point: the entries of the object, of which "created" is one that holds no stats.
abbrev pub Point : Type 0
Point = List (String × Option ContainerStats)

-- `?? 0`
abbrev pub or_zero : Option ℕ → ℕ
or_zero none = 0
or_zero (some n) = n

pub cpu_of : ContainerStats → ℕ
cpu_of s = or_zero s.c

pub memory_of : ContainerStats → ℕ
memory_of s = or_zero s.m

pub sent_bytes : ContainerStats → ℕ
sent_bytes s = elim s.b [ none ↦ or_zero s.ns * 1024 * 1024 | some p ↦ p.0 ]

pub recv_bytes : ContainerStats → ℕ
recv_bytes s = elim s.b [ none ↦ or_zero s.nr * 1024 * 1024 | some p ↦ p.1 ]

pub network_of : ContainerStats → ℕ
network_of s = sent_bytes s + recv_bytes s

pub record Usage : Type 0 where
  pub cpu : Dict ℕ
  pub memory : Dict ℕ
  pub network : Dict ℕ

abbrev pub no_usage : Usage
no_usage = record { cpu = []; memory = []; network = [] }

-- `totals.set(name, (totals.get(name) ?? 0) + amount)`
pub add_to : String → ℕ → Dict ℕ → Dict ℕ
add_to name amount totals = put totals name (or_zero (get totals name) + amount)

-- the body of the inner loop
pub add_entry : String × Option ContainerStats → Usage → Usage
add_entry (name, none) u = u
add_entry (name, some s) u = if str_eq name "created" then u else record {
  cpu = add_to name (cpu_of s) u.cpu;
  memory = add_to name (memory_of s) u.memory;
  network = add_to name (network_of s) u.network;
}

pub add_point : Point → Usage → Usage
unfolding add_entry
add_point [] u = u
add_point (e ∷ es) u = add_point es (add_entry e u)

pub add_points : List Point → Usage → Usage
unfolding add_point
add_points [] u = u
add_points (p ∷ ps) u = add_points ps (add_point p u)

-- `sort(([, a], [, b]) => b - a)`, which leaves entries with one total in their order
pub insert : String × ℕ → List (String × ℕ) → List (String × ℕ)
insert e [] = e ∷ []
insert e (x ∷ xs) = let rest = insert e xs in if leb x.1 e.1 then e ∷ x ∷ xs else x ∷ rest

pub sorted : List (String × ℕ) → List (String × ℕ)
unfolding insert
sorted [] = []
sorted (x ∷ xs) = insert x (sorted xs)

-- The hue of the container at an index of as many as there are, times that many.
pub hue : ℕ → ℕ → ℕ
hue count i = i * 360 % (360 * count)

pub colors_from : ℕ → ℕ → List (String × ℕ) → List (String × ℕ)
unfolding hue
colors_from count i [] = []
colors_from count i (e ∷ es) = (e.0, hue count i) ∷ colors_from count (i + 1) es

-- The configuration of a chart: each container with its hue.
pub chart_config : Dict ℕ → List (String × ℕ)
unfolding sorted colors_from
chart_config usage = colors_from (length usage) 0 (sorted usage)

pub record Configs : Type 0 where
  pub cpu : List (String × ℕ)
  pub memory : List (String × ℕ)
  pub network : List (String × ℕ)

-- useContainerChartConfigs
pub container_chart_configs : List Point → Configs
unfolding add_points chart_config
container_chart_configs points =
    let usage : Usage = add_points points no_usage in
    record {
      cpu = chart_config usage.cpu;
      memory = chart_config usage.memory;
      network = chart_config usage.network;
    }
