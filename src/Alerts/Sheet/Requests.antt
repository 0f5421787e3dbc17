-- ===== src/Alerts/Sheet/Requests.antt =====
-- Which systems a switch is about and which requests are sent.
use bezel_custom.Prelude.{
  ℕ, ◌+◌, ◌≤◌, ◌<◌, ◌≡◌, refl, String, Bool, true, false, not, none, List, [], ◌∷◌, arith, str_eq,
  eq_iff, ltb, leb, le→leb, ◌||◌, ◌&&◌, if◌then◌else◌, keep, length, Bool-cases, inl, inr,
}
use bezel_custom.NameSet.{has}
use bezel_custom.Utils.Timers.{Debounced, invoke, elapse}
use bezel_custom.Alerts.Sheet.{
  Content, Upsert, Deletion, Sheet, has_alert, get_system_ids, send_upsert, send_deletion, switch,
  pass, alert_debounce,
}

has-keep :
    (x : String) (p : String → Bool) (xs : List String) → has x (keep p xs) ≡ (has x xs && p x)
unfolding has
has-keep x p [] = refl
has-keep x p (y ∷ xs) = elim (Bool-cases (str_eq y x)) [
  | inl same ↦ rw ((eq_iff y x).0 same) (ground (arith, has-keep x p xs, eq_iff x x))
  | inr other ↦ ground (arith, has-keep x p xs, other)
]

own_id : (own id : String) → has id (own ∷ []) ≡ str_eq own id
unfolding has
own_id own id = ground arith

-- A switch on the tab of one system is about that system only. On the tab of all systems it is
-- about the systems that had no alert of its name when the tab was opened, and about all systems
-- if existing alerts are to be overwritten.
pub get_system_ids_lem :
    (c : Content) (sheet : Sheet) (id : String)
    → has id (get_system_ids c sheet) ≡ (
        if c.is_global
        then has id sheet.systems
          && (sheet.overwrite_existing || not (has_alert sheet.initial_alerts id c.alert_key))
        else str_eq c.system id)
unfolding get_system_ids
get_system_ids_lem c sheet id = elim (Bool-cases c.is_global) [
  | inl all ↦ rw all (
      has-keep id
        (λ x. sheet.overwrite_existing || not (has_alert sheet.initial_alerts x c.alert_key))
        sheet.systems)
  | inr one ↦ rw one (own_id c.system id)
]

-- The request that turns the alert of a content on.
abbrev pub upsert_of : Content → Sheet → Upsert
upsert_of c sheet = record {
  name = c.alert_key;
  value = c.value;
  min = c.min;
  systems = get_system_ids c sheet;
}

abbrev pub deletion_of : Content → Sheet → Deletion
deletion_of c sheet = record { name = c.alert_key; systems = get_system_ids c sheet }

-- A debounced call is made once its wait has passed.
due_call :
    {A : Type 0} (a : A) (now later : ℕ) (d : Debounced A)
    → now + alert_debounce ≤ later
    → elapse alert_debounce later (invoke alert_debounce now a d)
      ≡ record { pending = none; calls = a ∷ d.calls }
unfolding elapse invoke
due_call a now later d h = rw (le→leb (now + alert_debounce) later h) refl

early_call :
    {A : Type 0} (a : A) (now soon : ℕ) (d : Debounced A)
    → soon < now + alert_debounce
    → elapse alert_debounce soon (invoke alert_debounce now a d) ≡ invoke alert_debounce now a d
unfolding elapse invoke
early_call a now soon d h =
    let waits : leb (now + alert_debounce) soon ≡ false = ground (arith, h) in rw waits refl

send_upsert_lem :
    (now : ℕ) (c : Content) (sheet : Sheet)
    → ltb 0 (length (get_system_ids c sheet)) ≡ true
    → send_upsert now c.min c.value c sheet
      ≡ record sheet { upserts = invoke alert_debounce now (upsert_of c sheet) sheet.upserts }
unfolding send_upsert
send_upsert_lem now c sheet h = rw h refl

-- A switch that is about some system and is turned on, with no other call within 100 milliseconds,
-- sends one request to set the alert with the value and the minutes of its sliders for these
-- systems; turned off, it sends one to delete it.
pub switch-calls :
    (c : Content) (sheet : Sheet) (now later : ℕ)
    → now + alert_debounce ≤ later
    → ltb 0 (length (get_system_ids c sheet)) ≡ true
    → ((pass later (switch now true c sheet).1).upserts.calls
        ≡ upsert_of c sheet ∷ sheet.upserts.calls)
      × ((pass later (switch now false c sheet).1).deletions.calls
          ≡ deletion_of c sheet ∷ sheet.deletions.calls)
unfolding switch pass send_deletion
switch-calls c sheet now later due some_ids = (
  rw
      (
        send_upsert_lem now c sheet some_ids,
        due_call (upsert_of c sheet) now later sheet.upserts due,
      )
      refl,
  rw (due_call (deletion_of c sheet) now later sheet.deletions due) refl,
)

-- If two switches, each about some system, are turned on less than 100 milliseconds apart, also of
-- different alerts, the request of the first is never sent: only that of the second is.
pub switches_lose :
    (first second : Content) (sheet : Sheet) (now soon later : ℕ)
    → soon < now + alert_debounce
    → soon + alert_debounce ≤ later
    → ltb 0 (length (get_system_ids first sheet)) ≡ true
    → ltb 0 (length (get_system_ids second sheet)) ≡ true
    → (pass later
        (switch soon true second (pass soon (switch now true first sheet).1)).1).upserts.calls
      ≡ upsert_of second sheet ∷ sheet.upserts.calls
unfolding switch pass get_system_ids invoke
switches_lose first second sheet now soon later early due f s =
    let once : Sheet = record sheet {
      upserts = invoke alert_debounce now (upsert_of first sheet) sheet.upserts;
      deletions = elapse alert_debounce soon sheet.deletions;
    } in
    rw
      (
        send_upsert_lem now first sheet f,
        early_call (upsert_of first sheet) now soon sheet.upserts early,
        send_upsert_lem soon second once s,
        due_call (upsert_of second sheet) soon later once.upserts due,
      )
      refl
