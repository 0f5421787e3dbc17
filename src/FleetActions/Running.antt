-- ===== src/FleetActions/Running.antt =====
-- How many actions run at a time.
use bezel_custom.Prelude.{
  ℕ, ◌≡◌, refl, Bool, true, false, Option, none, some, List, [], ◌∷◌, arith, length,
}
use bezel_custom.FleetActions.{
  FleetAction, State, Event, chooses, cancels, continues, answers, handle, handle_all,
}

-- One action is under way while the button spins, and none otherwise; no dialog is open meanwhile.
abbrev pub IsSingle : Bool → Option FleetAction → List FleetAction → Type 0
IsSingle true confirm sent = (length sent ≡ 1) × (confirm ≡ none)
IsSingle false confirm sent = sent ≡ []

abbrev pub IsCalm : State → Type 0
IsCalm s = IsSingle s.running s.confirm s.sent

handle-IsSingle :
    (e : Event) (running : Bool) (confirm : Option FleetAction) (sent : List FleetAction)
    (s : State)
    → s.running ≡ running
    → s.confirm ≡ confirm
    → s.sent ≡ sent
    → IsSingle running confirm sent
    → IsCalm (handle e s)
unfolding handle
handle-IsSingle (chooses action) true confirm sent s r c t h = rw r (rw (c, t) h)
handle-IsSingle (chooses action) false confirm sent s r c t h = rw r (rw t h)
handle-IsSingle cancels true confirm sent s r c t h = rw r (rw t (h.0, refl))
handle-IsSingle cancels false confirm sent s r c t h = rw r (rw t h)
handle-IsSingle continues true none sent s r c t h = rw c (rw r (rw t (h.0, refl)))
handle-IsSingle continues true (some a) sent s r c t h = ground (arith, h)
handle-IsSingle continues false none sent s r c t h = rw c (rw r (rw t h))
handle-IsSingle continues false (some a) sent s r c t h = rw c (rw t (rw h (refl, refl)))
handle-IsSingle (answers results) true confirm [] s r c t h = ground (arith, h)
handle-IsSingle (answers results) true confirm (x ∷ []) s r c t h = rw t refl
handle-IsSingle (answers results) true confirm (x ∷ y ∷ ys) s r c t h = ground (arith, h)
handle-IsSingle (answers results) false confirm [] s r c t h = rw t (rw r refl)
handle-IsSingle (answers results) false confirm (x ∷ xs) s r c t h = ground (arith, h)

handle_all-IsCalm : (es : List Event) (s : State) → IsCalm s → IsCalm (handle_all es s)
unfolding handle_all
handle_all-IsCalm [] s h = h
handle_all-IsCalm (e ∷ es) s h =
    handle_all-IsCalm es (handle e s)
      (handle-IsSingle e s.running s.confirm s.sent s refl refl refl h)

abbrev pub number : Bool → ℕ
number true = 1
number false = 0

sent_number :
    (running : Bool) (confirm : Option FleetAction) (sent : List FleetAction)
    → IsSingle running confirm sent
    → length sent ≡ number running
sent_number true confirm sent h = h.0
sent_number false confirm sent h = rw h refl

-- If nothing was sent at first and the button did not spin, then after any events one action is
-- under way if the button spins, and none otherwise.
pub handle_all-sends_one :
    (es : List Event) (s : State)
    → s.running ≡ false
    → s.sent ≡ []
    → length (handle_all es s).sent ≡ number (handle_all es s).running
handle_all-sends_one es s idle none_sent =
    let calm : IsCalm s = rw idle none_sent in
    let last : State = handle_all es s in
    sent_number last.running last.confirm last.sent (handle_all-IsCalm es s calm)
