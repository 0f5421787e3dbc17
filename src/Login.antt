-- ===== src/Login.antt =====
-- internal/site/src/components/login: the checks of the form, what a submitted form sends and what its
-- answers change, and the single sign-on. Whether a text is an address is a test of valibot's.
pub mod Submission
pub mod Oauth
mod Tests
use Prim.Native.Char.{code, len_utf8}
use Prim.Native.String
use bezel_custom.Prelude.{
  ℕ, ◌+◌, ◌≤◌, ◌≡◌, String, Bool, true, false, Option, none, some, List, [], ◌∷◌, ◌++◌, str_eq, ltb,
  leb, ◌&&◌, not, if◌then◌else◌,
}

pub data Field : Type 0 where
  website email password password_confirm : Field

pub data Problem : Type 0 where
  not_empty invalid_email too_short too_long no_match : Problem

-- The fields of the form; a login has no password_confirm.
pub record Credentials : Type 0 where
  pub website : String
  pub email : String
  pub password : String
  pub password_confirm : String

-- `length` of a text, which counts UTF-16 code units, and its bytes in UTF-8
abbrev pub units : String → ℕ
units String.[] = 0
units (String.◌∷◌ c s) = (if ltb (code c) 65_536 then 1 else 2) + units s

abbrev pub bytes : String → ℕ
bytes String.[] = 0
bytes (String.◌∷◌ c s) = len_utf8 c + bytes s

abbrev pub when_not : Bool → Field → Problem → List (Field × Problem)
when_not true field problem = []
when_not false field problem = (field, problem) ∷ []

-- passwordSchema
abbrev pub password_issues : Field → String → List (Field × Problem)
password_issues field p =
    when_not (leb 8 (units p)) field too_short ++ when_not (leb (bytes p) 72) field too_long

abbrev pub confirm_issues : Bool → Credentials → List (Field × Problem)
confirm_issues true c = password_issues password_confirm c.password_confirm
confirm_issues false c = []

-- An answer of the hub to a password: it may want a second factor.
pub data Auth : Type 0 where
  accepted : Auth
  refused : Option String → Auth

pub data Request : Type 0 where
  creates authenticates : String → String → Request
  asks_otp : String → Request

-- What the hub answers to each request that may be sent.
pub record Answers : Type 0 where
  pub created : Auth
  pub auth : Auth
  pub otp : Option String

-- The state of UserAuthForm, with $authenticated and the number of toasts about a log-in
-- that did not work.
pub record Form : Type 0 where
  pub is_loading : Bool
  pub is_oauth_loading : Bool
  pub errors : List (Field × Problem)
  pub mfa_id : Option String
  pub otp_id : Option String
  pub authenticated : Bool
  pub failures : ℕ

module _ (is_email : String → Bool) where
  -- The issues of LoginSchema and RegisterSchema.
  unfoldable pub issues : Bool → Credentials → List (Field × Problem)
  issues is_first_run c =
      when_not (str_eq c.website "") website not_empty
      ++ when_not (is_email c.email) email invalid_email
      ++ password_issues password c.password
      ++ confirm_issues is_first_run c

  -- `requestOTP` with its answer
  abbrev pub with_otp : Option String → Form → Form
  with_otp none form = record form { failures = form.failures + 1 }
  with_otp (some id) form = record form { otp_id = some id }

  -- The catch block: an id of the second factor that is empty counts as none.
  abbrev pub on_refusal : Option String → Credentials → Answers → Form → Form × List Request
  on_refusal none c a form = (record form { failures = form.failures + 1 }, [])
  on_refusal (some id) c a form =
      if str_eq id ""
      then (record form { failures = form.failures + 1 }, [])
      else (with_otp a.otp (record form { mfa_id = some id }), asks_otp c.email ∷ [])

  abbrev pub on_auth : Auth → Credentials → Answers → Form → Form × List Request
  on_auth accepted c a form = (record form { authenticated = true }, [])
  on_auth (refused id) c a form = on_refusal id c a form

  abbrev pub after : List Request → Form × List Request → Form × List Request
  after sent (form, rest) = (form, sent ++ rest)

  abbrev pub on_created : Auth → Credentials → Answers → Form → Form × List Request
  on_created accepted c a form =
      after (creates c.email c.password ∷ authenticates c.email c.password ∷ [])
        (on_auth a.auth c a form)
  on_created (refused id) c a form =
      after (creates c.email c.password ∷ []) (on_refusal id c a form)

  -- The rest of handleSubmit for data without issues.
  pub log_in : Bool → Credentials → Answers → Form → Form × List Request
  log_in true c a form =
      if str_eq c.password c.password_confirm
      then on_created a.created c a form
      else (record form { errors = (password_confirm, no_match) ∷ [] }, [])
  log_in false c a form = after (authenticates c.email c.password ∷ []) (on_auth a.auth c a form)

  abbrev pub checked :
      List (Field × Problem) → Bool → Credentials → Answers → Form → Form × List Request
  checked [] is_first_run c a form = log_in is_first_run c a form
  checked (e ∷ es) is_first_run c a form = (record form { errors = e ∷ es }, [])

  -- The finally block.
  abbrev pub finished : Form × List Request → Form × List Request
  finished (form, sent) = (record form { is_loading = false }, sent)

  pub handle_submit : Bool → Credentials → Answers → Form → Form × List Request
  unfolding issues log_in
  handle_submit is_first_run c a form =
      finished
        (checked (issues is_first_run c) is_first_run c a (record form { is_loading = true }))
