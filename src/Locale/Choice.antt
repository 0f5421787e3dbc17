-- ===== src/Locale/Choice.antt =====
-- The chosen language is one that there is, and a language that was activated is chosen again.
use text.Mathlib.Text.{starts_with}
use bezel_custom.Prelude.{
  ◌≡◌, ◌⊎◌, inl, inr, refl, subst, String, Bool, true, false, Option, some, List, [], ◌∷◌, arith,
  str_eq, eq_iff, if◌then◌else◌, given, All, Bool-cases, Option-cases,
}
use bezel_custom.NameSet.{has}
use bezel_custom.Dict.{Dict, get}
use bezel_custom.Locale.{
  languages, zh_variant_map, before_dash, known_or_english, get_locale, or_english, State,
  activate_locale, dynamic_activate,
}

english_known : has "en" languages ≡ true
unfolding has
english_known = refl

known_or_english-known : (locale : String) → has (known_or_english locale) languages ≡ true
unfolding known_or_english
known_or_english-known locale = elim (Bool-cases (has locale languages)) [
  | inl known ↦ rw (known_or_english, known) known
  | inr unknown ↦ rw (known_or_english, unknown) english_known
]

-- A property of the values of a map and of a default.
given_get :
    (P : String → Type 0) (d : Dict String) (key default : String)
    → All (λ entry. P entry.1) d
    → P default
    → P (given (get d key) default)
unfolding get
given_get P [] key default h p = p
given_get P ((k, v) ∷ d) key default h p = elim (Bool-cases (str_eq k key)) [
  | inl same ↦ rw same h.0
  | inr other ↦ rw other (given_get P d key default h.1 p)
]

variant_known : (locale : String) → has (given (get zh_variant_map locale) "zh-CN") languages ≡ true
unfolding has
variant_known locale =
    given_get (λ l. has l languages ≡ true) zh_variant_map locale "zh-CN"
      (refl, (refl, (refl, (refl, tt)))) refl

-- The language chosen is one of the list, whatever the browser says.
pub get_locale-known : (detected : Option String) → has (get_locale detected) languages ≡ true
unfolding get_locale
get_locale-known detected = elim (Bool-cases (starts_with (or_english detected) "zh-")) [
  | inl chinese ↦ rw chinese (variant_known (or_english detected))
  | inr other ↦ rw other (known_or_english-known (before_dash (or_english detected)))
]

all_pass : (String → Bool) → List String → Bool
all_pass test [] = true
all_pass test (x ∷ xs) = let rest = all_pass test xs in if test x then rest else false

pass_of :
    (test : String → Bool) (x : String) (xs : List String)
    → all_pass test xs ≡ true
    → has x xs ≡ true
    → test x ≡ true
unfolding all_pass has
pass_of test x [] h there = cc
pass_of test x (y ∷ ys) h there = elim (Bool-cases (str_eq y x)) [
  | inl same ↦
      subst (λ z. test z ≡ true) ((eq_iff y x).0 same)
        (elim (Bool-cases (test y)) [ inl passes ↦ passes | inr fails ↦ ground (arith, fails, h) ])
  | inr other ↦
      pass_of test x ys
        (elim (Bool-cases (test y)) [
          | inl passes ↦ ground (arith, passes, h)
          | inr fails ↦ ground (arith, fails, h)
        ])
        (ground (arith, other, there))
]

all_kept : all_pass (λ l. str_eq (get_locale (some l)) l) languages ≡ true
unfolding all_pass get_locale
all_kept = refl

-- Every language chooses itself.
language_kept : (locale : String) → has locale languages ≡ true → get_locale (some locale) ≡ locale
language_kept locale known =
    (eq_iff (get_locale (some locale)) locale).0
      (pass_of (λ l. str_eq (get_locale (some l)) l) locale languages all_kept known)

dynamic_activate-cases :
    {Messages : Type 0} (load : String → Option Messages) (locale : String) (s : State)
    → (dynamic_activate load locale s ≡ activate_locale locale s)
      ⊎ (dynamic_activate load locale s ≡ activate_locale "en" s)
unfolding dynamic_activate
dynamic_activate-cases load locale s = elim (Bool-cases (str_eq locale "en")) [
  | inl english ↦ inl (rw english refl)
  | inr other ↦ elim (Option-cases (load locale)) [
    | inl fails ↦ inr (rw (other, fails) refl)
    | inr (messages, loaded) ↦ inl (rw (other, loaded) refl)
  ]
]

activated_kept :
    (locale : String) (s : State)
    → has locale languages ≡ true
    → get_locale (activate_locale locale s).stored ≡ (activate_locale locale s).active
unfolding activate_locale
activated_kept locale s known = language_kept locale known

-- After a language of the list is activated, whether or not its texts could be loaded, the
-- language chosen for what is stored is the active one.
pub dynamic_activate-get_locale :
    {Messages : Type 0} (load : String → Option Messages) (locale : String) (s : State)
    → has locale languages ≡ true
    → get_locale (dynamic_activate load locale s).stored ≡ (dynamic_activate load locale s).active
dynamic_activate-get_locale load locale s known = elim (dynamic_activate-cases load locale s) [
  | inl e ↦ rw e (activated_kept locale s known)
  | inr e ↦ rw e (activated_kept "en" s english_known)
]
