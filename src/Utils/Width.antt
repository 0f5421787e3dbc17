-- ===== src/Utils/Width.antt =====
-- getVisualStringWidth of internal/site/src/lib/utils.ts, in tenths of a column: a Hangul character
-- counts 18, a full-width one 20, any other 10. A text is walked by code point.
use Prim.Native.Char.{code}
use bezel_custom.Prelude.{
  ℕ, ◌+◌, ◌*◌, ◌≤◌, ◌≡◌, refl, Bool, String, ◌&&◌, ◌||◌, arith, leb, ltb, if◌then◌else◌,
}

is_hangul : ℕ → Bool
is_hangul c = leb 0x1100 c && leb c 0x115f || leb 0xac00 c && leb c 0xd7af

is_full_width : ℕ → Bool
is_full_width c =
    leb 0x2e80 c && leb c 0x9fff
    || leb 0xf900 c && leb c 0xfaff
    || leb 0xfe30 c && leb c 0xfe6f
    || leb 0xff00 c && leb c 0xff60
    || leb 0xffe0 c && leb c 0xffe6
    || ltb 0xffff c

char_width : ℕ → ℕ
unfolding is_hangul is_full_width
char_width c = if is_hangul c then 18 else if is_full_width c then 20 else 10

-- the loop of getVisualStringWidth, over the characters left
width_from : ℕ → String → ℕ
unfolding char_width
width_from width String.[] = width
width_from width (String.◌∷◌ c s) = width_from (width + char_width (code c)) s

unfoldable pub visual_width : String → ℕ
unfolding width_from
visual_width str = width_from 0 str

abbrev pub count : String → ℕ
count String.[] = 0
count (String.◌∷◌ c s) = count s + 1

width_from_bounds :
    (width : ℕ) (s : String)
    → (width + 10 * count s ≤ width_from width s) × (width_from width s ≤ width + 20 * count s)
unfolding width_from char_width
width_from_bounds width String.[] = omega arith
width_from_bounds width (String.◌∷◌ c s) =
    ground (arith, width_from_bounds (width + char_width (code c)) s)

-- The width of a text lies between one and two columns for each of its characters.
pub visual_width_bounds :
    (s : String) → (10 * count s ≤ visual_width s) × (visual_width s ≤ 20 * count s)
unfolding visual_width
visual_width_bounds s = omega (arith, width_from_bounds 0 s)

width_mixed : visual_width "a한中😀" ≡ 68
unfolding visual_width
width_mixed = refl
