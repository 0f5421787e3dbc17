-- ===== src/Tables/ServiceSheet.antt =====
-- SystemdSheet of internal/site/src/components/systemd-table/systemd-table.tsx: the details of a
-- service, whose request is cancelled when another service is opened. The runs of the effect are
-- numbered.
mod Tests
use bezel_custom.Prelude.{
  ℕ, suc, ◌≡◌, refl, sym, ap, String, Bool, true, false, Option, none, some, List, [], ◌∷◌, arith,
  ◌==◌, ==_iff, if◌then◌else◌, Bool-cases, inl, inr, ◌∙◌, subst,
}

-- What the hub answers about a service: its details, none, or that the request failed.
pub data Result : Type 0 where
  found : String → Result
  no_results : Result
  failed : String → Result

pub record Details : Type 0 where
  pub about : String
  pub text : String

-- The service and whether the sheet is open, the run that is not cancelled, how many there were, and
-- what is displayed.
pub record Sheet : Type 0 where
  pub service : String
  pub is_open : Bool
  pub current : Option ℕ
  pub runs : ℕ
  pub details : Option Details
  pub is_loading : Bool
  pub error : Option String

-- The sheet opens with a service or changes to one, it is closed, or an answer about a service comes
-- to the request of a run.
pub data Event : Type 0 where
  opens : String → Event
  closes : Event
  answers : ℕ → String → Result → Event

unfoldable pub show_result : String → Result → Sheet → Sheet
show_result about (found text) s = record s {
  details = some (record { about = about; text = text });
  is_loading = false;
}
show_result about no_results s = record s {
  details = none;
  error = some "No results found.";
  is_loading = false;
}
show_result about (failed message) s = record s {
  details = none;
  error = some message;
  is_loading = false;
}

-- `if (cancelled) return`
abbrev pub is_current : ℕ → Option ℕ → Bool
is_current n none = false
is_current n (some m) = m == n

-- An answer that was shown is not shown again: a promise settles once.
unfoldable pub handle : Event → Sheet → Sheet
unfolding show_result
handle (opens service) s = record {
  service = service;
  is_open = true;
  current = some s.runs;
  runs = suc s.runs;
  details = none;
  is_loading = true;
  error = none;
}
handle closes s = record s { is_open = false; current = none }
handle (answers n about result) s = if is_current n s.current then show_result about result s else s

unfoldable pub handle_all : List Event → Sheet → Sheet
unfolding handle
handle_all [] s = s
handle_all (e ∷ es) s = handle_all es (handle e s)

-- Each answer is about the service that its run asked for; the number is that of the next run.
abbrev pub asked_next : (ℕ → String) → ℕ → String → ℕ → String
asked_next asked runs service n = if runs == n then service else asked n

abbrev pub AreHonest : ℕ → (ℕ → String) → List Event → Type 0
AreHonest runs asked [] = Unit
AreHonest runs asked (opens service ∷ es) = AreHonest (suc runs) (asked_next asked runs service) es
AreHonest runs asked (closes ∷ es) = AreHonest runs asked es
AreHonest runs asked (answers n about result ∷ es) = (about ≡ asked n) × AreHonest runs asked es

abbrev pub IsAbout : String → Option Details → Type 0
IsAbout service none = Unit
IsAbout service (some d) = d.about ≡ service

-- What is displayed is about the service of the sheet, and so is what the current run asked for.
abbrev IsRight : (ℕ → String) → String → Option ℕ → Option Details → Type 0
IsRight asked service none details = IsAbout service details
IsRight asked service (some n) details = IsAbout service details × (asked n ≡ service)

right-IsAbout :
    (asked : ℕ → String) (service : String) (current : Option ℕ) (details : Option Details)
    → IsRight asked service current details
    → IsAbout service details
right-IsAbout asked service none details h = h
right-IsAbout asked service (some n) details h = h.0

shown-IsRight :
    (asked : ℕ → String) (n : ℕ) (about : String) (result : Result) (current : Option ℕ) (s : Sheet)
    → s.current ≡ current
    → is_current n current ≡ true
    → about ≡ asked n
    → IsRight asked s.service current s.details
    → IsRight asked
        (show_result about result s).service
        (show_result about result s).current
        (show_result about result s).details
unfolding show_result
shown-IsRight asked n about result none s e is same h = cc
shown-IsRight asked n about (found text) (some m) s e is same h =
    rw e (same ∙ sym (ap asked ((==_iff m n).0 is)) ∙ h.1, h.1)
shown-IsRight asked n about no_results (some m) s e is same h = rw e (tt, h.1)
shown-IsRight asked n about (failed message) (some m) s e is same h = rw e (tt, h.1)

show_result-runs :
    (about : String) (result : Result) (s : Sheet) → (show_result about result s).runs ≡ s.runs
unfolding show_result
show_result-runs about (found text) s = refl
show_result-runs about no_results s = refl
show_result-runs about (failed message) s = refl

-- An answer to a run, shown or not, leaves the display right and the number of runs.
abbrev IsRightAfter : (ℕ → String) → ℕ → Sheet → Type 0
IsRightAfter asked runs s = IsRight asked s.service s.current s.details × (s.runs ≡ runs)

answer-IsRightAfter :
    (asked : ℕ → String) (n : ℕ) (about : String) (result : Result) (s : Sheet)
    → about ≡ asked n
    → IsRight asked s.service s.current s.details
    → IsRightAfter asked s.runs (handle (answers n about result) s)
unfolding handle
answer-IsRightAfter asked n about result s same h = elim (Bool-cases (is_current n s.current)) [
  | inl now ↦ rw now (
    shown-IsRight asked n about result s.current s refl now same h,
    show_result-runs about result s,
  )
  | inr late ↦ rw late (h, refl)
]

displayed_lem :
    (asked : ℕ → String) (es : List Event) (s : Sheet)
    → IsRight asked s.service s.current s.details
    → AreHonest s.runs asked es
    → IsAbout (handle_all es s).service (handle_all es s).details
unfolding handle_all handle
displayed_lem asked [] s h honest = right-IsAbout asked s.service s.current s.details h
displayed_lem asked (opens service ∷ es) s h honest =
    displayed_lem (asked_next asked s.runs service) es (handle (opens service) s) (tt, ground arith)
      honest
displayed_lem asked (closes ∷ es) s h honest =
    displayed_lem asked es (handle closes s) (right-IsAbout asked s.service s.current s.details h)
      honest
displayed_lem asked (answers n about result ∷ es) s h (same, honest) =
    let (right, kept) = answer-IsRightAfter asked n about result s same h in
    displayed_lem asked es (handle (answers n about result) s) right
      (subst (λ runs. AreHonest runs asked es) (sym kept) honest)

-- If nothing is displayed and no request runs at first, and every answer is about the service that
-- its run asked for, the details on display are those of the service of the sheet after any
-- events.
pub handle_all-IsAbout :
    (asked : ℕ → String) (es : List Event) (s : Sheet)
    → s.current ≡ none
    → s.details ≡ none
    → AreHonest s.runs asked es
    → IsAbout (handle_all es s).service (handle_all es s).details
handle_all-IsAbout asked es s idle blank honest =
    displayed_lem asked es s
      (subst (λ current. IsRight asked s.service current s.details) (sym idle)
        (subst (λ details. IsAbout s.service details) (sym blank) tt))
      honest
