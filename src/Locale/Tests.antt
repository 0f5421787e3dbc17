-- ===== src/Locale/Tests.antt =====
-- The choice of a language at concrete settings.
use bezel_custom.Prelude.{◌≡◌, refl, String, true, Option, none, some}
use bezel_custom.NameSet.{has}
use bezel_custom.Locale.{languages, get_locale, State, ltr}

swiss_german : get_locale (some "de-CH") ≡ "de"
unfolding get_locale
swiss_german = refl

taiwan : get_locale (some "zh-TW") ≡ "zh"
unfolding get_locale
taiwan = refl

unknown : get_locale (some "eo") ≡ "en"
unfolding get_locale
unknown = refl

abbrev before : State
before = record { active = "en"; document_lang = "en"; stored = none; direction = ltr }

abbrev load_none : String → Option String
load_none locale = none

french_known : has "fr" languages ≡ true
unfolding has
french_known = refl
