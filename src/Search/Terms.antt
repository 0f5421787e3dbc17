-- ===== src/Search/Terms.antt =====
-- When a text matches, and how a filter text narrows the matches.
use Prim.Native.Char.{code}
use Prim.Native.String
use text.Mathlib.Text.{starts_with}
use text.Mathlib.TextLemmas.{nil-append, cons-append}
use text.Mathlib.TextPositions.{starts_with-append}
use text.Mathlib.TextEquality.{starts_with_iff}
use bezel_custom.Prelude.{
  ◌≡◌, refl, ap, sym, subst, ◌∙◌, String, true, List, [], ◌∷◌, ◌++◌, arith, eq_iff, ◌==◌, ◌&&◌, ◌↔◌,
  All, Bool-cases, inl, inr,
}
use bezel_custom.Search.{includes, split_spaces, every_term, non_empty, pieces}

pub every_term-append :
    (xs ys : List String) (text : String)
    → every_term (xs ++ ys) text ≡ (every_term xs text && every_term ys text)
unfolding every_term
every_term-append [] ys text = refl
every_term-append (x ∷ xs) ys text = ground (arith, every_term-append xs ys text)

-- A text that stands in another one.
abbrev pub IsPart : String → String → Type 0
IsPart term text =
    (u : String) × (v : String) × Path String (String.◌++◌ u (String.◌++◌ term v)) text

includes-IsPart : (s term : String) → includes s term ≡ true → IsPart term s
unfolding includes
includes-IsPart String.[] term h =
    let (v, e) = (starts_with_iff "" term).0 h in ("", v, nil-append (String.◌++◌ term v) ∙ e)
includes-IsPart (String.◌∷◌ c s) term h = elim (Bool-cases (starts_with (String.◌∷◌ c s) term)) [
  | inl here ↦
      let (v, e) = (starts_with_iff (String.◌∷◌ c s) term).0 here in
      ("", v, nil-append (String.◌++◌ term v) ∙ e)
  | inr later ↦
      let (u, v, e) = includes-IsPart s term (ground (arith, later)) in
      (String.◌∷◌ c u, v, cons-append c u (String.◌++◌ term v) ∙ ap (String.◌∷◌ c) e)
]

includes_at : (s term : String) → starts_with s term ≡ true → includes s term ≡ true
unfolding includes
includes_at String.[] term h = h
includes_at (String.◌∷◌ c s) term h = rw h refl

includes_start : (term v : String) → includes (String.◌++◌ term v) term ≡ true
unfolding includes
includes_start term v = includes_at (String.◌++◌ term v) term (starts_with-append term v)

includes_empty : (s : String) → includes s "" ≡ true
includes_empty s = subst (λ w. includes w "" ≡ true) (nil-append s) (includes_start "" s)

IsPart-includes : (s term : String) → IsPart term s → includes s term ≡ true
unfolding includes
IsPart-includes s term (String.[], v, e) =
    subst (λ w. includes w term ≡ true) (sym (nil-append (String.◌++◌ term v)) ∙ e)
      (includes_start term v)
IsPart-includes s term (String.◌∷◌ c u, v, e) =
    subst (λ w. includes w term ≡ true) (sym (cons-append c u (String.◌++◌ term v)) ∙ e)
      (ground (arith, IsPart-includes (String.◌++◌ u (String.◌++◌ term v)) term (u, v, refl)))

pieces-append :
    (f g : String)
    → pieces (String.◌++◌ f (String.◌++◌ " " g)) ≡ ((pieces f).0, (pieces f).1 ++ split_spaces g)
unfolding pieces split_spaces
pieces-append String.[] g =
    rw (nil-append (String.◌++◌ " " g), cons-append " " "" g, nil-append g) refl
pieces-append (String.◌∷◌ c s) g = elim (Bool-cases (code c == 32)) [
  | inl space ↦ rw (cons-append c s (String.◌++◌ " " g), pieces-append s g, space) refl
  | inr other ↦ rw (cons-append c s (String.◌++◌ " " g), pieces-append s g, other) refl
]

pub split_spaces-append :
    (f g : String)
    → split_spaces (String.◌++◌ f (String.◌++◌ " " g)) ≡ split_spaces f ++ split_spaces g
unfolding split_spaces
split_spaces-append f g = rw (pieces-append f g) refl

pub includes_iff : (s term : String) → (includes s term ≡ true) ↔ IsPart term s
includes_iff s term = (includes-IsPart s term, IsPart-includes s term)

-- Terms that are empty match everything.
pub every_term-non_empty :
    (terms : List String) (text : String)
    → every_term (non_empty terms) text ≡ every_term terms text
unfolding every_term
every_term-non_empty [] text = refl
every_term-non_empty (t ∷ ts) text =
    ground (arith, every_term-non_empty ts text, eq_iff t "", includes_empty text)

-- What every term of a list is.
pub every_term_iff :
    (terms : List String) (text : String)
    → (every_term terms text ≡ true) ↔ All (λ term. IsPart term text) terms
unfolding every_term
every_term_iff [] text = (λ h. tt, λ h. refl)
every_term_iff (t ∷ ts) text = (
  λ h. elim (Bool-cases (includes text t)) [
    | inl there ↦
        (includes-IsPart text t there, (every_term_iff ts text).0 (ground (arith, there, h)))
    | inr absent ↦ cc
  ],
  λ h. rw (IsPart-includes text t h.0) ((every_term_iff ts text).1 h.1),
)
