-- ===== src/Search.antt =====
-- The text search of the tables of internal/site/src: the filter text in lower case is split at
-- spaces, and a row matches if its text has every piece. `toLowerCase` is a parameter of its users.
pub mod Terms
use Prim.Native.Char.{code}
use Prim.Native.String
use text.Mathlib.Text.{starts_with}
use bezel_custom.Prelude.{
  String, Bool, true, false, not, List, [], ◌∷◌, str_eq, ◌==◌, if◌then◌else◌, keep,
}

-- `includes`
unfoldable pub includes : String → String → Bool
includes String.[] term = starts_with "" term
includes (String.◌∷◌ c s) term =
    let rest = includes s term in if starts_with (String.◌∷◌ c s) term then true else rest

-- The piece before the first space and the pieces after it.
unfoldable pub pieces : String → String × List String
pieces String.[] = ("", [])
pieces (String.◌∷◌ c s) =
    let rest = pieces s in
    if code c == 32 then ("", rest.0 ∷ rest.1) else (String.◌∷◌ c rest.0, rest.1)

-- `split(" ")`: one piece more than there are spaces
unfoldable pub split_spaces : String → List String
unfolding pieces
split_spaces s = (pieces s).0 ∷ (pieces s).1

-- `terms.every((term) => text.includes(term))`
unfoldable pub every_term : List String → String → Bool
unfolding includes
every_term [] text = true
every_term (term ∷ terms) text =
    let rest = every_term terms text in if includes text term then rest else false

-- `filter(Boolean)`
abbrev pub non_empty : List String → List String
non_empty terms = keep (λ term. not (str_eq term "")) terms
