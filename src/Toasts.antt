-- ===== src/Toasts.antt =====
-- internal/site/src/components/ui/use-toast.ts: the store of toasts, with the timers that take dismissed
-- toasts away. Times are milliseconds. The id of a toast is the text of a number, here the number.
pub mod Timers
pub mod Session
pub mod Removal
pub mod Shown
mod Tests
use bezel_custom.Prelude.{
  ℕ, ◌+◌, ◌-◌, ◌%◌, ◌^◌, String, Bool, true, false, not, Option, none, some, List, [], ◌∷◌, map,
  leb, ◌==◌, if◌then◌else◌, given, keep, take,
}

abbrev pub toast_limit : ℕ
toast_limit = 1

abbrev pub toast_remove_delay : ℕ
toast_remove_delay = 1000000

-- Number.MAX_SAFE_INTEGER
abbrev pub max_safe_integer : ℕ
max_safe_integer = 2 ^ 53 - 1

-- is_open is the field `open`.
pub record Toast : Type 0 where
  pub id : ℕ
  pub title : String
  pub is_open : Bool

-- toastTimeouts: the ids with a timer, each with the time that it is due
pub record State : Type 0 where
  pub count : ℕ
  pub toasts : List Toast
  pub timeouts : List (ℕ × ℕ)

abbrev pub start : State
start = record { count = 0; toasts = []; timeouts = [] }

pub gen_id : ℕ → ℕ
gen_id count = (count + 1) % max_safe_integer

-- toastTimeouts.has
pub has_timer : ℕ → List (ℕ × ℕ) → Bool
has_timer id [] = false
has_timer id ((j, due) ∷ rest) = let found = has_timer id rest in if j == id then true else found

pub add_to_remove_queue : ℕ → ℕ → List (ℕ × ℕ) → List (ℕ × ℕ)
unfolding has_timer
add_to_remove_queue now id timeouts =
    if has_timer id timeouts then timeouts else (id, now + toast_remove_delay) ∷ timeouts

-- `state.toasts.forEach((toast) => addToRemoveQueue(toast.id))`
pub queue_all : ℕ → List Toast → List (ℕ × ℕ) → List (ℕ × ℕ)
unfolding add_to_remove_queue
queue_all now [] timeouts = timeouts
queue_all now (t ∷ ts) timeouts = queue_all now ts (add_to_remove_queue now t.id timeouts)

abbrev pub is_dismissed : Option ℕ → Toast → Bool
is_dismissed none t = true
is_dismissed (some id) t = t.id == id

abbrev pub close : Option ℕ → Toast → Toast
close dismissed t = if is_dismissed dismissed t then record t { is_open = false } else t

-- The cases of the reducer
pub add_toast : Toast → State → State
add_toast t s = record s { toasts = take toast_limit (t ∷ s.toasts) }

-- The fields of `Partial<ToasterToast>`: a field that is not given stays.
pub record Change : Type 0 where
  pub id : ℕ
  pub title : Option String
  pub is_open : Option Bool

abbrev pub changed : Change → Toast → Toast
changed c t =
    if t.id == c.id
    then record { id = c.id; title = given c.title t.title; is_open = given c.is_open t.is_open }
    else t

pub update_toast : Change → State → State
update_toast c s = record s { toasts = map (changed c) s.toasts }

pub queued : ℕ → Option ℕ → State → List (ℕ × ℕ)
unfolding queue_all
queued now none s = queue_all now s.toasts s.timeouts
queued now (some id) s = add_to_remove_queue now id s.timeouts

pub dismiss_toast : ℕ → Option ℕ → State → State
unfolding queued
dismiss_toast now dismissed s = record s {
  toasts = map (close dismissed) s.toasts;
  timeouts = queued now dismissed s;
}

abbrev pub without : Option ℕ → List Toast → List Toast
without none toasts = []
without (some id) toasts = keep (λ t. not (t.id == id)) toasts

pub remove_toast : Option ℕ → State → State
remove_toast removed s = record s { toasts = without removed s.toasts }

-- toast: a new toast with a fresh id
pub toast : String → State → State
unfolding add_toast gen_id
toast title s =
    add_toast (record { id = gen_id s.count; title = title; is_open = true })
      (record s { count = gen_id s.count })

-- the callback of a timer
pub expire : ℕ → State → State
unfolding remove_toast
expire id s =
    remove_toast (some id) (record s { timeouts = keep (λ timer. not (timer.0 == id)) s.timeouts })

-- Time passes: the callbacks of the timers that are due, in turn.
pub expire_due : ℕ → List (ℕ × ℕ) → State → State
unfolding expire
expire_due now [] s = s
expire_due now ((id, due) ∷ rest) s = expire_due now rest (if leb due now then expire id s else s)

pub elapse : ℕ → State → State
unfolding expire_due
elapse now s = expire_due now s.timeouts s

pub data Event : Type 0 where
  makes : String → Event
  updates : Change → Event
  dismisses : Option ℕ → Event
  elapses : Event

-- An event at a time
pub step : ℕ × Event → State → State
unfolding toast update_toast dismiss_toast elapse
step (now, makes title) s = toast title s
step (now, updates c) s = update_toast c s
step (now, dismisses id) s = dismiss_toast now id s
step (now, elapses) s = elapse now s

pub run : List (ℕ × Event) → State → State
unfolding step
run [] s = s
run (e ∷ es) s = run es (step e s)
