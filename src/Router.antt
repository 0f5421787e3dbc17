-- ===== src/Router.antt =====
-- internal/site/src/components/router.tsx: the paths of the pages below the path that the hub is
-- served from, and what a click on a link does.
pub mod Paths
mod Tests
use Prim.Native.Char.{Char, code}
use Prim.Native.String
use bezel_custom.Prelude.{
  String, Bool, true, false, Option, none, some, List, [], ◌∷◌, map, ◌==◌, ◌||◌, ◌&&◌,
  if◌then◌else◌, given,
}

abbrev pub is_slash : Char → Bool
is_slash c = code c == 47

-- `replaceAll("//", "/")`: pairs of slashes from the left; whether a slash stands before that may be
-- the first of a pair.
unfoldable pub collapse_after : Bool → String → String
collapse_after pending String.[] = if pending then "/" else ""
collapse_after true (String.◌∷◌ c s) =
    let plain = collapse_after false s in
    if is_slash c then String.◌∷◌ "/" plain else String.◌∷◌ "/" (String.◌∷◌ c plain)
collapse_after false (String.◌∷◌ c s) =
    let first = collapse_after true s in
    let plain = collapse_after false s in if is_slash c then first else String.◌∷◌ c plain

unfoldable pub prepend_base_path : String → String → String
unfolding collapse_after
prepend_base_path base_path path = collapse_after false (String.◌++◌ base_path path)

abbrev pub routes : List (String × String)
routes =
    ("home", "/")
    ∷ ("containers", "/containers")
    ∷ ("smart", "/smart")
    ∷ ("system", "/system/:id")
    ∷ ("settings", "/settings/:name?")
    ∷ ("forgot_password", "/forgot-password")
    ∷ ("request_otp", "/request-otp")
    ∷ []

-- The loop over the routes.
pub based_routes : String → List (String × String)
unfolding prepend_base_path
based_routes base_path = map (λ route. (route.0, prepend_base_path base_path route.1)) routes

-- A click on a Link.
pub data Effect : Type 0 where
  open_window navigate : String → Effect

pub click : Bool → Bool → Option String → Effect
click ctrl_key meta_key href =
    if ctrl_key || meta_key then open_window (given href "") else navigate (given href "")
