-- ===== src/SystemPage/Series.antt =====
-- The points of the throughput charts of internal/site/src/components/routes/system.tsx: agents send
-- bytes, and older ones megabytes. Numbers are whole ones.
use bezel_custom.Prelude.{
  ℕ, ◌*◌, ◌≡◌, refl, String, Bool, true, false, Option, none, some, given, str_eq, ◌&&◌, ◌||◌, not,
  ◌==◌, if◌then◌else◌,
}

-- Disk and network of a record that has stats: bytes read and written, sent and received, with their maximum, and
-- the same in megabytes.
pub record Stats : Type 0 where
  pub dio : Option (ℕ × ℕ)
  pub diom : Option (ℕ × ℕ)
  pub b : Option (ℕ × ℕ)
  pub bm : Option (ℕ × ℕ)
  pub dr : Option ℕ
  pub dw : Option ℕ
  pub drm : Option ℕ
  pub dwm : Option ℕ
  pub ns : Option ℕ
  pub nr : Option ℕ
  pub nsm : Option ℕ
  pub nrm : Option ℕ

-- A further file system: bytes and megabytes written and read, with their maximum.
pub record ExtraFsStats : Type 0 where
  pub wb : Option ℕ
  pub w : Option ℕ
  pub wbm : Option ℕ
  pub wm : Option ℕ
  pub rb : Option ℕ
  pub r : Option ℕ
  pub rbm : Option ℕ
  pub rm : Option ℕ

-- `maxValues && isLongerChart`
pub show_max : Bool → String → Bool
show_max max_values chart_time =
    max_values && not (str_eq chart_time "1m" || str_eq chart_time "1h")

abbrev pub from_mb : ℕ → ℕ
from_mb n = n * 1024 * 1024

-- `bytes ?? (mb ?? 0) * 1024 * 1024`
abbrev pub or_mb : Option ℕ → Option ℕ → ℕ
or_mb none mb = from_mb (given mb 0)
or_mb (some n) mb = n

-- `bytes || (mb ?? 0) * 1024 * 1024`
abbrev pub unless_zero : Option ℕ → Option ℕ → ℕ
unless_zero none mb = from_mb (given mb 0)
unless_zero (some n) mb = if n == 0 then from_mb (given mb 0) else n

-- `bytes ?? mb * 1024 * 1024`, none for NaN
abbrev pub or_nan : Option ℕ → Option ℕ → Option ℕ
or_nan (some n) mb = some n
or_nan none none = none
or_nan none (some n) = some (from_mb n)

abbrev pub first : Option (ℕ × ℕ) → Option ℕ
first none = none
first (some (x, y)) = some x

abbrev pub second : Option (ℕ × ℕ) → Option ℕ
second none = none
second (some (x, y)) = some y

pub disk_write : Bool → Stats → ℕ
disk_write true stats = or_mb (second stats.dio) stats.dwm
disk_write false stats = or_mb (second stats.dio) stats.dw

pub disk_read : Bool → Stats → ℕ
disk_read true stats = or_mb (first stats.diom) stats.drm
disk_read false stats = or_mb (first stats.dio) stats.dr

pub sent : Bool → Stats → Option ℕ
sent true stats = some (or_mb (first stats.bm) stats.nsm)
sent false stats = or_nan (first stats.b) stats.ns

pub received : Bool → Stats → Option ℕ
received true stats = some (or_mb (second stats.bm) stats.nrm)
received false stats = or_nan (second stats.b) stats.nr

pub extra_write : Bool → ExtraFsStats → ℕ
extra_write true fs = unless_zero fs.wbm fs.wm
extra_write false fs = unless_zero fs.wb fs.w

pub extra_read : Bool → ExtraFsStats → ℕ
extra_read true fs = or_mb fs.rbm fs.rm
extra_read false fs = or_mb fs.rb fs.r

-- What was measured, in megabytes: an average and a maximum.
pub record Measured : Type 0 where
  pub average : ℕ
  pub maximum : ℕ

abbrev pub pair_of : (Measured → ℕ) → Measured → Measured → Option (ℕ × ℕ)
pair_of f x y = some (from_mb (f x), from_mb (f y))

abbrev average : Measured → ℕ
average m = m.average

abbrev maximum : Measured → ℕ
maximum m = m.maximum

-- The record of an agent that sends bytes, and that of one that sends megabytes.
abbrev pub in_bytes : Measured → Measured → Measured → Measured → Stats
in_bytes read written sent' received' = record {
  dio = pair_of average read written;
  diom = pair_of maximum read written;
  b = pair_of average sent' received';
  bm = pair_of maximum sent' received';
  dr = none;
  dw = none;
  drm = none;
  dwm = none;
  ns = none;
  nr = none;
  nsm = none;
  nrm = none;
}

abbrev pub in_megabytes : Measured → Measured → Measured → Measured → Stats
in_megabytes read written sent' received' = record {
  dio = none;
  diom = none;
  b = none;
  bm = none;
  dr = some read.average;
  dw = some written.average;
  drm = some read.maximum;
  dwm = some written.maximum;
  ns = some sent'.average;
  nr = some received'.average;
  nsm = some sent'.maximum;
  nrm = some received'.maximum;
}

-- The same measures sent in bytes and in megabytes are drawn alike, averages and maxima, but for
-- one series: the maximum of the bytes written is drawn as their average.
pub bytes_as_megabytes :
    (max : Bool) (read written up down : Measured)
    → (disk_read max (in_bytes read written up down)
        ≡ disk_read max (in_megabytes read written up down))
      × (sent max (in_bytes read written up down) ≡ sent max (in_megabytes read written up down))
      × (received max (in_bytes read written up down)
          ≡ received max (in_megabytes read written up down))
      × (disk_write max (in_bytes read written up down) ≡ from_mb written.average)
      × (disk_write max (in_megabytes read written up down)
          ≡ from_mb (if max then written.maximum else written.average))
unfolding disk_read disk_write sent received
bytes_as_megabytes true read written up down = (refl, refl, refl, refl, refl)
bytes_as_megabytes false read written up down = (refl, refl, refl, refl, refl)
