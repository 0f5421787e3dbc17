-- ===== src/Login/Submission.antt =====
-- What a submitted form sends, and when it logs in.
use bezel_custom.Prelude.{String, Bool, true, false, List, [], ◌∷◌, str_eq, leb, ◌&&◌, ◌||◌, not}
use bezel_custom.Login.{Credentials, units, bytes, Auth, accepted, refused, Request}

-- The passwords that the form takes, and the addresses.
abbrev pub is_password : String → Bool
is_password p = leb 8 (units p) && leb (bytes p) 72

abbrev pub is_valid : (String → Bool) → Bool → Credentials → Bool
is_valid is_email is_first_run c =
    str_eq c.website ""
    && is_email c.email
    && is_password c.password
    && (not is_first_run
        || (is_password c.password_confirm && str_eq c.password c.password_confirm))

abbrev pub is_accepted : Auth → Bool
is_accepted accepted = true
is_accepted (refused _) = false

abbrev pub sends : List Request → Bool
sends [] = false
sends (_ ∷ _) = true
