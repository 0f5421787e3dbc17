-- ===== src/Locale.antt =====
-- internal/site/src/lib/i18n.ts: which language is chosen, and what activating one sets. The texts of
-- a language are loaded by the bundler: `load` gives none where that fails.
pub mod Choice
mod Tests
use Prim.Native.Char.{code}
use Prim.Native.String
use text.Mathlib.Text.{starts_with}
use bezel_custom.Prelude.{
  String, Bool, true, false, Option, none, some, List, [], ◌∷◌, str_eq, ◌==◌, if◌then◌else◌, given,
}
use bezel_custom.NameSet.{has}
use bezel_custom.Dict.{Dict, get}

-- The codes of lib/languages.ts, in its order.
abbrev pub languages : List String
languages =
    "ar" ∷ "bg" ∷ "cs" ∷ "da" ∷ "de" ∷ "en" ∷ "es" ∷ "fa" ∷ "fr" ∷ "he" ∷ "hr" ∷ "hu" ∷ "id" ∷ "it"
    ∷ "ja" ∷ "ko" ∷ "nl" ∷ "no" ∷ "pl" ∷ "pt" ∷ "ru" ∷ "sl" ∷ "sr" ∷ "sv" ∷ "tr" ∷ "uk" ∷ "vi"
    ∷ "zh-CN" ∷ "zh-HK" ∷ "zh" ∷ []

abbrev pub rtl_languages : List String
rtl_languages = "ar" ∷ "fa" ∷ "he" ∷ []

abbrev pub zh_variant_map : Dict String
zh_variant_map = ("zh-HK", "zh-HK") ∷ ("zh-TW", "zh") ∷ ("zh-MO", "zh") ∷ ("zh-Hant", "zh") ∷ []

-- `split("-")[0]`
pub before_dash : String → String
before_dash String.[] = ""
before_dash (String.◌∷◌ c s) =
    let rest = before_dash s in if code c == 45 then "" else String.◌∷◌ c rest

-- `locale || "en"`
abbrev or_english : Option String → String
or_english none = "en"
or_english (some locale) = if str_eq locale "" then "en" else locale

pub known_or_english : String → String
unfolding has
known_or_english locale = if has locale languages then locale else "en"

-- the locale for what the browser's storage or its settings say
unfoldable pub get_locale : Option String → String
unfolding before_dash known_or_english get
get_locale detected =
    let locale : String = or_english detected in
    if starts_with locale "zh-"
    then given (get zh_variant_map locale) "zh-CN"
    else known_or_english (before_dash locale)

pub data Direction : Type 0 where
  rtl ltr : Direction

-- The active language, that of the document, that in the storage, and the direction.
pub record State : Type 0 where
  pub active : String
  pub document_lang : String
  pub stored : Option String
  pub direction : Direction

pub activate_locale : String → State → State
unfolding has
activate_locale locale s = record {
  active = locale;
  document_lang = locale;
  stored = some locale;
  direction = if has locale rtl_languages then rtl else ltr;
}

module _ {Messages : Type 0} (load : String → Option Messages) where
  pub dynamic_activate : String → State → State
  unfolding activate_locale
  dynamic_activate locale s =
      if str_eq locale "en" then activate_locale locale s else elim (load locale) [
        | none ↦ activate_locale "en" s
        | some messages ↦ activate_locale locale s
      ]
