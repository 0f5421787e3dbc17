-- ===== src/Tables/ContainerSheet.antt =====
-- ContainerSheet of internal/site/src/components/containers-table/containers-table.tsx: the logs and
-- the details of the container whose row was clicked. Times are milliseconds.
use bezel_custom.Prelude.{
  ℕ, ◌+◌, ◌-◌, ◌≤◌, ◌≡◌, max, refl, String, Bool, true, false, Option, none, some, List, [], ◌∷◌,
  arith, str_eq, if◌then◌else◌,
}

-- What the server answers to a request for a container, none if the request fails; "" is what it
-- says of a container without logs. Details stand here as they are after the formatting of their JSON,
-- if they have any.
pub record Answer : Type 0 where
  pub about : String
  pub text : Option String

-- A display is empty or shows the answer to a request.
pub data Display : Type 0 where
  blank : Display
  no_results : String → Display
  code : String → String → Display

-- getLogsHtml and getInfoHtml: a failed request leaves the display empty.
abbrev pub html_of : String → Option String → Display
html_of about none = blank
html_of about (some text) = if str_eq text "" then no_results about else code about text

abbrev pub html : Answer → Display
html a = html_of a.about a.text

-- The container of the sheet, the displays, and whether the button of the logs spins.
pub record Sheet : Type 0 where
  pub container : String
  pub logs : Display
  pub info : Display
  pub is_refreshing : Bool

-- A row with another record is clicked, both answers to its requests are there, the button is clicked,
-- its answer arrives, and a timer of the button runs out. A button that spins is disabled.
pub data Event : Type 0 where
  opens : String → Event
  loads : Answer → Answer → Event
  clicks : Event
  refreshes : Answer → Event
  stops : Event

unfoldable pub handle : Event → Sheet → Sheet
handle (opens c) s = record s { container = c; logs = blank; info = blank }
handle (loads l i) s = record s { logs = html l; info = html i }
handle clicks s = record s { is_refreshing = true }
handle (refreshes l) s = record s { logs = html l }
handle stops s = record s { is_refreshing = false }

unfoldable pub handle_all : List Event → Sheet → Sheet
unfolding handle
handle_all [] s = s
handle_all (e ∷ es) s = handle_all es (handle e s)

-- `Math.max(0, 500 - elapsed)`, where the numbers are the times of the click and of the answer
pub remaining : ℕ → ℕ → ℕ
remaining start answered = 500 - (answered - start)

-- When the timer of a click stops the spinning.
pub stops_at : ℕ → ℕ → ℕ
unfolding remaining
stops_at start answered = answered + remaining start answered

-- An answer that arrives while another container is open is displayed there.
pub late_answer_shows :
    (c : String) (l i : Answer) (s : Sheet)
    → (handle_all (opens c ∷ loads l i ∷ []) s).logs ≡ html l
unfolding handle_all handle
late_answer_shows c l i s = refl

-- From the click on, the button spins until the answer, and for at least 500 ms.
pub stops_at_lem :
    (start answered : ℕ) → start ≤ answered → stops_at start answered ≡ max answered (start + 500)
unfolding stops_at remaining
stops_at_lem start answered h = ground arith
