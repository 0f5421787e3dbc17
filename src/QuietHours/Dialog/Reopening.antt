-- ===== src/QuietHours/Dialog/Reopening.antt =====
-- A window that the dialog created fills its form as it was.
use bezel_custom.Prelude.{
  ℕ, ◌+◌, ◌*◌, ◌/◌, ◌<◌, ◌≡◌, refl, String, Bool, true, false, Option, none, some, arith, str_eq,
  eq_iff, ap, ◌∙◌, sym, subst, if◌then◌else◌,
}
use bezel_custom.QuietHours.{Kind, one_time, daily}
use bezel_custom.QuietHours.Dialog.{
  Zone, Form, Data, time_text, format_date_time_local, map_option, load, day_2000, to_utc,
  daily_date, chosen, submit_as, handle_submit, system_or_none, created,
}

-- What the dialog shows of a form: the system, the type, and the times of that type.
abbrev pub starts : Kind → Form → Option ℕ × Option ℕ
starts daily form = (form.start_time, form.end_time)
starts one_time form = (form.start_date_time, form.end_date_time)

abbrev pub shown : Form → String × Kind × (Option ℕ × Option ℕ)
shown form = (
  if form.is_global then "" else form.selected_system,
  form.window_type,
  starts form.window_type form,
)

-- The local minute is one of the clock: it is what is shown for the minute of UTC that it is read as.
abbrev pub IsOnClock : Zone → ℕ → Type 0
IsOnClock zone l = zone.utc l + zone.ahead (zone.utc l) ≡ l + 1440

abbrev pub IsTime : Zone → Option ℕ → Type 0
IsTime zone none = Unit
IsTime zone (some t) = (t < 1440) × IsOnClock zone (day_2000 + t)

abbrev pub IsDate : Zone → Option ℕ → Type 0
IsDate zone none = Unit
IsDate zone (some l) = IsOnClock zone l

-- The times of a type are ones of the clock.
abbrev pub IsReadable : Zone → Kind → Form → Type 0
IsReadable zone daily form = IsTime zone form.start_time × IsTime zone form.end_time
IsReadable zone one_time form = IsDate zone form.start_date_time × IsDate zone form.end_date_time

minute_of : (m : ℕ) → m * 60_000 / 60_000 ≡ m
minute_of m = omega arith

time_back :
    (zone : Zone) (t : ℕ)
    → t < 1440
    → IsOnClock zone (day_2000 + t)
    → time_text zone (daily_date zone t) ≡ t
unfolding time_text
time_back zone t small on = rw (minute_of (zone.utc (day_2000 + t)), on) (omega arith)

date_back :
    (zone : Zone) (l : ℕ) → IsOnClock zone l → format_date_time_local zone (to_utc zone l) ≡ l
unfolding format_date_time_local
date_back zone l on = rw (minute_of (zone.utc l), on) (omega arith)

times_back :
    (zone : Zone) (o : Option ℕ)
    → IsTime zone o
    → map_option (time_text zone) (map_option (daily_date zone) o) ≡ o
times_back zone none h = refl
times_back zone (some t) (small, on) = ap some (time_back zone t small on)

dates_back :
    (zone : Zone) (o : Option ℕ)
    → IsDate zone o
    → map_option (format_date_time_local zone) (map_option (to_utc zone) o) ≡ o
dates_back zone none h = refl
dates_back zone (some l) on = ap some (date_back zone l on)

system_back :
    (global : Bool) (system : String)
    → (if str_eq (system_or_none (if global then none else some system)) ""
        then ""
        else system_or_none (if global then none else some system))
      ≡ (if global then "" else system)
system_back true system = refl
system_back false system = ground (arith, eq_iff system "")

-- The window that the form creates shows what the form shows.
abbrev pub Reopens : Zone → Form → Form → Type 0
Reopens zone form g =
    (d : Data) × (handle_submit zone form ≡ some d)
    × (shown (load zone d.kind (created d) g) ≡ shown form)

typed-Reopens :
    (zone : Zone) (k : Kind) (form g : Form) (s : ℕ)
    → form.window_type ≡ k
    → (starts k form).0 ≡ some s
    → IsReadable zone k form
    → Reopens zone form g
unfolding handle_submit submit_as load
typed-Reopens zone daily form g s kind start (t, u) =
    let (small, on) = subst (IsTime zone) start t in
    let from : some (time_text zone (daily_date zone s)) ≡ form.start_time =
      ap some (time_back zone s small on) ∙ sym start in
    let to = times_back zone form.end_time u in
    (
      record {
        system = chosen form;
        kind = daily;
        start = daily_date zone s;
        end = map_option (daily_date zone) form.end_time;
      },
      rw (kind, start) refl,
      rw kind (λ i. (system_back form.is_global form.selected_system i, daily, (from i, to i))),
    )
typed-Reopens zone one_time form g s kind start (t, u) =
    let from : some (format_date_time_local zone (to_utc zone s)) ≡ form.start_date_time =
      ap some (date_back zone s (subst (IsDate zone) start t)) ∙ sym start in
    let to = dates_back zone form.end_date_time u in
    (
      record {
        system = chosen form;
        kind = one_time;
        start = to_utc zone s;
        end = map_option (to_utc zone) form.end_date_time;
      },
      rw (kind, start) refl,
      rw kind (λ i. (system_back form.is_global form.selected_system i, one_time, (from i, to i))),
    )

-- If the start of the chosen type is filled in and the times of that type are ones of the clock,
-- the form is submitted, and the dialog shows for the window that this creates the system, the
-- type and the times that it was submitted with, whatever it showed before.
pub handle_submit-Reopens :
    (zone : Zone) (form g : Form) (s : ℕ)
    → (starts form.window_type form).0 ≡ some s
    → IsReadable zone form.window_type form
    → Reopens zone form g
handle_submit-Reopens zone form g s start times =
    typed-Reopens zone form.window_type form g s refl start times
