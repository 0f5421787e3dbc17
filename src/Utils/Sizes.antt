-- ===== src/Utils/Sizes.antt =====
-- formatBytes of internal/site/src/lib/utils.ts. A size is a whole number of bytes (or megabytes), and
-- a value is kept as the exact fraction that the source divides.
use bezel_custom.Prelude.{
  ℕ, ◌*◌, ◌^◌, ◌≤◌, ◌<◌, ◌≡◌, ◌⊎◌, refl, String, Bool, true, false, arith, ltb, if◌then◌else◌, ◌++◌,
  List, [], ◌∷◌, some,
}
use bezel_custom.Dict.{get}
use Prim.Native.String

-- `Unit` of internal/site/src/lib/enums.ts
pub data MeasureUnit : Type 0 where
  bytes bits celsius fahrenheit : MeasureUnit

pub data Prefix : Type 0 where
  plain kilo mega giga tera : Prefix

-- `num / den` of the unit with that prefix
pub record Amount : Type 0 where
  pub num : ℕ
  pub den : ℕ
  pub prefix : Prefix

abbrev pub amount : ℕ → ℕ → Prefix → Amount
amount num den prefix = record { num = num; den = den; prefix = prefix }

abbrev pub is_bits : MeasureUnit → Bool
is_bits bits = true
is_bits _ = false

unfoldable pub scale_bits : ℕ → Amount
scale_bits n =
    if ltb n 1_000
    then amount n 1 plain
    else if ltb n 1_000_000
    then amount n 1_000 kilo
    else if ltb n 1_000_000_000
    then amount n 1_000_000 mega
    else if ltb n 1_000_000_000_000
    then amount n 1_000_000_000 giga
    else amount n 1_000_000_000_000 tera

unfoldable pub scale_bytes : ℕ → Amount
scale_bytes n =
    if ltb n 100
    then amount n 1 plain
    else if ltb n (1000 * 1024)
    then amount n 1024 kilo
    else if ltb n (1000 * 1024 ^ 2)
    then amount n (1024 ^ 2) mega
    else if ltb n (1000 * 1024 ^ 3)
    then amount n (1024 ^ 3) giga
    else amount n (1024 ^ 4) tera

unfoldable pub in_bytes : ℕ → Bool → ℕ
in_bytes size is_megabytes = if is_megabytes then size * (1024 * 1024) else size

unfoldable pub format_bytes : ℕ → MeasureUnit → Bool → Amount
unfolding in_bytes scale_bits scale_bytes
format_bytes size unit is_megabytes =
    if is_bits unit
    then scale_bits (in_bytes size is_megabytes * 8)
    else scale_bytes (in_bytes size is_megabytes)

abbrev pub rate : Bool → String
rate in_bits = if in_bits then "ps" else "/s"

abbrev pub letters : Bool → Prefix → String
letters in_bits plain = if in_bits then "b" else "B"
letters in_bits kilo = if in_bits then "Kb" else "KB"
letters in_bits mega = if in_bits then "Mb" else "MB"
letters in_bits giga = if in_bits then "Gb" else "GB"
letters in_bits tera = if in_bits then "Tb" else "TB"

-- The text of the unit, with the suffix of a rate.
unfoldable pub unit_text : Bool → Bool → Prefix → String
unit_text in_bits per_second prefix =
    String.◌++◌ (letters in_bits prefix) (if per_second then rate in_bits else "")

-- How many bits or bytes a unit with a prefix has.
abbrev pub factor : MeasureUnit → Prefix → ℕ
factor unit plain = 1
factor unit kilo = if is_bits unit then 1000 else 1024
factor unit mega = if is_bits unit then 1000 ^ 2 else 1024 ^ 2
factor unit giga = if is_bits unit then 1000 ^ 3 else 1024 ^ 3
factor unit tera = if is_bits unit then 1000 ^ 4 else 1024 ^ 4

-- The amount is the size in that unit: its bits or bytes over the factor of the prefix, with less than
-- a thousand of them unless the prefix is the greatest.
pub record IsAmount (size : ℕ) (unit : MeasureUnit) (a : Amount) : Type 0 where
  pub whole : a.num ≡ (if is_bits unit then size * 8 else size)
  pub scaled : a.den ≡ factor unit a.prefix
  pub short : (a.prefix ≡ tera) ⊎ (a.num < 1000 * a.den)
  -- at least one unit of bits, or a tenth of one of bytes
  pub large : (a.prefix ≡ plain) ⊎ (a.den ≤ (if is_bits unit then a.num else 11 * a.num))

-- A formatted size is the size in bits or bytes over the factor of its unit, less than a thousand
-- of the unit unless that is the greatest, and, unless the unit has no prefix, at least one of it
-- in bits or an eleventh of it in bytes.
pub format_bytes_lem :
    (size : ℕ) (unit : MeasureUnit) (is_megabytes : Bool)
    → IsAmount
        (if is_megabytes then size * 1048576 else size)
        unit
        (format_bytes size unit is_megabytes)
unfolding format_bytes
format_bytes_lem size bits is_megabytes = record {
  whole = ground arith;
  scaled = ground arith;
  short = ground arith;
  large = ground arith;
}
format_bytes_lem size _ is_megabytes = record {
  whole = ground arith;
  scaled = ground arith;
  short = ground arith;
  large = ground arith;
}

-- A larger size is never shown with a smaller prefix.
abbrev pub rank : Prefix → ℕ
rank plain = 0
rank kilo = 1
rank mega = 2
rank giga = 3
rank tera = 4

pub rank-scale_bytes_mono :
    (m n : ℕ) → m ≤ n → rank (scale_bytes m).prefix ≤ rank (scale_bytes n).prefix
unfolding scale_bytes
rank-scale_bytes_mono m n h = ground arith

-- The unit that a text names: whether it is of bits, whether it is a rate, and the prefix.
abbrev rows : Prefix → List (String × (Bool × Bool × Prefix))
rows p =
    (unit_text true true p, (true, true, p))
    ∷ (unit_text true false p, (true, false, p))
    ∷ (unit_text false true p, (false, true, p))
    ∷ (unit_text false false p, (false, false, p))
    ∷ []

pub unit_table : List (String × (Bool × Bool × Prefix))
unit_table = rows plain ++ rows kilo ++ rows mega ++ rows giga ++ rows tera

-- The text of a unit tells whether it is of bits, whether it is a rate, and its prefix: no two are
-- written alike.
pub get-unit_text :
    (in_bits per_second : Bool) (prefix : Prefix)
    → get unit_table (unit_text in_bits per_second prefix) ≡ some (in_bits, per_second, prefix)
unfolding unit_table unit_text get
get-unit_text true true plain = refl
get-unit_text true false plain = refl
get-unit_text false true plain = refl
get-unit_text false false plain = refl
get-unit_text _ _ _ = refl
