-- ===== src/Login/Tests.antt =====
-- Log-ins at concrete inputs.
use bezel_custom.Prelude.{
  ◌≡◌, refl, String, Bool, true, false, none, some, List, [], ◌∷◌, not, str_eq,
}
use bezel_custom.Login.{
  Credentials, Answers, accepted, refused, Form, handle_submit, issues, log_in, password, too_short,
  authenticates, asks_otp,
}
use bezel_custom.Login.Oauth.{
  Tab, Event, appears, times_out, answers, logs_out, handle_all, handle_all-opens_none, handle,
  mount, login_with_oauth,
}

abbrev any_text : String → Bool
any_text s = not (str_eq s "")

abbrev ann : Credentials
ann = record {
  website = "";
  email = "ann@example.com";
  password = "correct horse";
  password_confirm = "";
}

abbrev wants_factor : Answers
wants_factor = record { created = accepted; auth = refused (some "m1"); otp = some "o1" }

abbrev new_form : Form
new_form = record {
  is_loading = false;
  is_oauth_loading = false;
  errors = [];
  mfa_id = none;
  otp_id = none;
  authenticated = false;
  failures = 0;
}

asks_for_code : handle_submit any_text false ann wants_factor new_form ≡ (
  record new_form { mfa_id = some "m1"; otp_id = some "o1" },
  authenticates "ann@example.com" "correct horse" ∷ asks_otp "ann@example.com" ∷ [],
)
unfolding handle_submit issues log_in
asks_for_code = refl

short_password :
    (handle_submit any_text false
      (record ann { password = "horse" })
      wants_factor
      new_form).0.errors
    ≡ (password, too_short) ∷ []
unfolding handle_submit issues log_in
short_password = refl

abbrev tab : Tab
tab = record { lo = none; due = none; opened = "oidc" ∷ []; form = new_form }

abbrev later : List Event
later = appears false ("oidc" ∷ []) ∷ times_out false ∷ answers true true ∷ []

handle_all-opens_none_example : (handle_all (logs_out ∷ later) tab).opened ≡ "oidc" ∷ []
handle_all-opens_none_example = handle_all-opens_none later tab refl

-- Without the log-out the window opens.
opens_window : (handle_all later tab).opened ≡ "oidc" ∷ "oidc" ∷ []
unfolding handle_all handle mount login_with_oauth
opens_window = refl
