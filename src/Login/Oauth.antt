-- ===== src/Login/Oauth.antt =====
-- Single sign-on of internal/site/src/components/login/auth-form.tsx, the log-in by one-time passwords
-- of otp-forms.tsx, and the session flag that logOut of internal/site/src/lib/api.ts sets.
use bezel_custom.Prelude.{
  ◌+◌, ◌≡◌, refl, String, Bool, true, false, Option, none, some, List, [], ◌∷◌, ◌&&◌, not, str_eq,
  if◌then◌else◌, arith, ◌∙◌,
}
use bezel_custom.Login.{Form}

-- The page of the tab: the flag `lo` of its session storage, whether a log-in by a provider is due in
-- 300 ms, the providers whose windows were opened, and the form.
pub record Tab : Type 0 where
  pub lo : Option String
  pub due : Option String
  pub opened : List String
  pub form : Form

-- `!sessionStorage.getItem("lo")`
abbrev pub is_unset : Option String → Bool
is_unset none = true
is_unset (some v) = str_eq v ""

-- The providers are those of `authMethods.oauth2`, by their names.
abbrev pub only_one : List String → Option String
only_one [] = none
only_one (p ∷ []) = some p
only_one (_ ∷ _ ∷ _) = none

abbrev pub or_due : Option String → Option String → Option String
or_due none due = due
or_due (some p) due = some p

-- The effect that runs when the form appears.
unfoldable pub mount : Bool → List String → Tab → Tab
mount password_enabled providers tab =
    if not password_enabled && is_unset tab.lo
    then record tab { due = or_due (only_one providers) tab.due }
    else tab

-- loginWithOauth: a popup is wanted when forced, or on the devices named; `blocked` tells that the
-- browser opens none.
unfoldable pub login_with_oauth : Bool → Bool → String → Tab → Tab
login_with_oauth wants_popup blocked provider tab =
    if wants_popup && blocked
    then record tab {
      form = record tab.form { is_oauth_loading = false; failures = tab.form.failures + 1 };
    }
    else record tab {
      form = record tab.form { is_oauth_loading = true };
      opened = provider ∷ tab.opened;
    }

-- The timer of the effect, which forces a popup.
abbrev pub fire : Option String → Bool → Tab → Tab
fire none blocked tab = tab
fire (some provider) blocked tab =
    login_with_oauth true blocked provider (record tab { due = none })

-- The answer of the provider: whether it is there, and whether the token is valid then.
unfoldable pub oauth_answered : Bool → Bool → Tab → Tab
oauth_answered answered is_valid tab =
    if answered
    then record tab {
      form = record tab.form { is_oauth_loading = false; authenticated = is_valid };
    }
    else record tab {
      form = record tab.form { is_oauth_loading = false; failures = tab.form.failures + 1 };
    }

-- logOut, as far as the tab goes: the auth store is cleared, which the page listens to.
unfoldable pub log_out : Tab → Tab
log_out tab = record tab { lo = some "t"; form = record tab.form { authenticated = false } }

-- What happens in a tab after it opened: a page with the form appears, the timer runs out, a button
-- of a provider is clicked (which opens a window of its own accord), answers, and log-outs.
pub data Event : Type 0 where
  appears : Bool → List String → Event
  times_out : Bool → Event
  answers : Bool → Bool → Event
  logs_out : Event

unfoldable pub handle : Event → Tab → Tab
unfolding mount login_with_oauth oauth_answered log_out
handle (appears password_enabled providers) tab = mount password_enabled providers tab
handle (times_out blocked) tab = fire tab.due blocked tab
handle (answers answered is_valid) tab = oauth_answered answered is_valid tab
handle logs_out tab = log_out tab

unfoldable pub handle_all : List Event → Tab → Tab
unfolding handle
handle_all [] tab = tab
handle_all (e ∷ es) tab = handle_all es (handle e tab)

-- The flag is set and no log-in is due.
abbrev IsOut : Tab → Type 0
IsOut tab = (tab.lo ≡ some "t") × (tab.due ≡ none)

handle-IsOut :
    (e : Event) (tab : Tab)
    → IsOut tab
    → IsOut (handle e tab) × ((handle e tab).opened ≡ tab.opened)
unfolding handle mount login_with_oauth oauth_answered log_out
handle-IsOut (appears password_enabled providers) tab h = ground (arith, h)
handle-IsOut (times_out blocked) tab h = rw h.1 ((h.0, refl), refl)
handle-IsOut (answers answered is_valid) tab h = ground (arith, h)
handle-IsOut logs_out tab h = ground (arith, h)

kept_out : (es : List Event) (tab : Tab) → IsOut tab → (handle_all es tab).opened ≡ tab.opened
unfolding handle_all
kept_out [] tab h = refl
kept_out (e ∷ es) tab h =
    let (out, same) = handle-IsOut e tab h in kept_out es (handle e tab) out ∙ same

-- After a log-out while no log-in by itself is due, no window of a provider opens in the tab by
-- itself any more, whatever pages appear, timers run out or answers come.
pub handle_all-opens_none :
    (es : List Event) (tab : Tab)
    → tab.due ≡ none
    → (handle_all (logs_out ∷ es) tab).opened ≡ tab.opened
unfolding handle_all handle log_out
handle_all-opens_none es tab idle = kept_out es (log_out tab) (refl, idle)
