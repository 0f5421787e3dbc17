-- ===== src/Startup/Sessions.antt =====
-- What the start of internal/site/src/main.tsx promises of the stores of systems: those of a plain
-- directory to which the fetched systems and the messages after the subscription were applied. What
-- changes between the two is in neither.
use bezel_custom.Prelude.{
  ℕ, ◌≡◌, ◌≤◌, refl, String, Bool, true, false, Option, none, some, List, [], ◌∷◌, ◌++◌, map, ◌∙◌,
  ap, arith,
}
use bezel_custom.Dict.{Dict}
use bezel_custom.Store.{MapStore}
use bezel_custom.Systems.{SystemStatus, SystemRecord, State, init, start, refresh}
use bezel_custom.Systems.Writes.{filed, status_store}
use bezel_custom.Systems.Directory.{
  Event as Delivery, handle as deliver, message, answer, run, run-directory, enter_all,
}
use bezel_custom.Alerts.{AlertRecord, Manager}
use bezel_custom.Startup.{
  Chain, HubEvent, Event, Page, hub, answers_systems, subscribes_systems, answers_alerts,
  subscribes_alerts, unmounts, changes_system, changes_alert, passes, advance, on_systems, handle,
  handle_all, mounted, fresh, systems_subscribed, alerts_answered, alerts_subscribed, unsubscribe,
}

-- The messages about systems of a part of the session, up to its end.
abbrev pub delivered : List Event → List Delivery
delivered [] = []
delivered (hub (changes_system action r) ∷ es) = message action r ∷ delivered es
delivered (hub (changes_alert now m) ∷ es) = delivered es
delivered (hub (passes now) ∷ es) = delivered es
delivered (answers_systems response ∷ es) = delivered es
delivered (subscribes_systems ok ∷ es) = delivered es
delivered (answers_alerts response ∷ es) = delivered es
delivered (subscribes_alerts ok ∷ es) = delivered es
delivered (unmounts ∷ es) = []

-- A session: changes before the systems are fetched, changes before the page is subscribed to them,
-- and all that comes later.
abbrev pub session : List HubEvent → List SystemRecord → List HubEvent → List Event → List Event
session early systems gap late =
    map hub early
    ++ (answers_systems (some systems) ∷ (map hub gap ++ (subscribes_systems true ∷ late)))

module _ (S : MapStore SystemRecord) (T : MapStore (Dict AlertRecord)) where
  open S use {value}

  -- The stores of systems through a part of the session, which do not depend on the alerts.
  unfoldable track : List Event → Chain → State S → State S
  unfolding advance on_systems
  track [] c s = s
  track (e ∷ es) c s = track es (advance e c) (on_systems S T e c.answered c.systems_live s)

  systems-handle_all :
      (es : List Event) (p : Page S T) → (handle_all S T es p).systems ≡ track es p.chain p.systems
  unfolding handle_all handle track
  systems-handle_all [] p = refl
  systems-handle_all (e ∷ es) p = systems-handle_all es (handle S T e p)

  -- Without a subscription, a change at the hub does nothing to the systems.
  missed :
      (e : HubEvent) (n : ℕ) (live : Bool) (s : State S)
      → live ≡ false
      → on_systems S T (hub e) n live s ≡ s
  unfolding on_systems
  missed (changes_system action r) n live s off = rw off refl
  missed (changes_alert now m) n live s off = refl
  missed (passes now) n live s off = refl

  track_missed :
      (es : List HubEvent) (rest : List Event) (c : Chain) (s : State S)
      → c.systems_live ≡ false
      → track (map hub es ++ rest) c s ≡ track rest c s
  unfolding track advance
  track_missed [] rest c s off = refl
  track_missed (e ∷ es) rest c s off =
      ap (track (map hub es ++ rest) c) (missed e c.answered c.systems_live s off)
      ∙ track_missed es rest c s off

  -- Once the requests about systems are answered, nothing but the messages and the end matters.
  ignored :
      (e : Event) (n : ℕ) (live : Bool) (s : State S)
      → 2 ≤ n
      → live ≡ false
      → on_systems S T e n live s ≡ s
  unfolding on_systems
  ignored (hub e) n live s past off = missed e n live s off
  ignored (answers_systems response) n live s past off = ground arith
  ignored (subscribes_systems ok) n live s past off = refl
  ignored (answers_alerts response) n live s past off = refl
  ignored (subscribes_alerts ok) n live s past off = refl
  ignored unmounts n live s past off = refl

  advance-past : (e : Event) (c : Chain) → 2 ≤ c.answered → 2 ≤ (advance e c).answered
  unfolding advance unsubscribe alerts_answered alerts_subscribed
  advance-past (hub e) c past = past
  advance-past (answers_systems response) c past = ground arith
  advance-past (subscribes_systems ok) c past = ground arith
  advance-past (answers_alerts none) c past = ground arith
  advance-past (answers_alerts (some alerts)) c past = ground arith
  advance-past (subscribes_alerts ok) c past = ground arith
  advance-past unmounts c past = past

  advance-off :
      (e : Event) (c : Chain)
      → 2 ≤ c.answered
      → c.systems_live ≡ false
      → (advance e c).systems_live ≡ false
  unfolding advance unsubscribe alerts_answered alerts_subscribed
  advance-off (hub e) c past off = off
  advance-off (answers_systems response) c past off = ground arith
  advance-off (subscribes_systems ok) c past off = ground arith
  advance-off (answers_alerts none) c past off = ground arith
  advance-off (answers_alerts (some alerts)) c past off = ground arith
  advance-off (subscribes_alerts ok) c past off = ground arith
  advance-off unmounts c past off = ground arith

  track_over :
      (es : List Event) (c : Chain) (s : State S)
      → 2 ≤ c.answered
      → c.systems_live ≡ false
      → track es c s ≡ s
  unfolding track
  track_over [] c s past off = refl
  track_over (e ∷ es) c s past off =
      ap (track es (advance e c)) (ignored e c.answered c.systems_live s past off)
      ∙ track_over es (advance e c) s (advance-past e c past) (advance-off e c past off)

  abbrev IsLive : Chain → Type 0
  IsLive c = (2 ≤ c.answered) × ((c.systems_live ≡ true) × (c.systems_unsub ≡ true))

  abbrev IsLiveAfter : Event → Chain → Type 0
  IsLiveAfter unmounts c = (2 ≤ (unsubscribe c).answered) × ((unsubscribe c).systems_live ≡ false)
  IsLiveAfter e c = IsLive (advance e c)

  -- Only the end of the page ends the subscription.
  advance-IsLiveAfter : (e : Event) (c : Chain) → IsLive c → IsLiveAfter e c
  unfolding advance unsubscribe alerts_answered alerts_subscribed
  advance-IsLiveAfter (hub e) c h = h
  advance-IsLiveAfter (answers_systems response) c h = ground arith
  advance-IsLiveAfter (subscribes_systems ok) c h = ground arith
  advance-IsLiveAfter (answers_alerts none) c h = ground arith
  advance-IsLiveAfter (answers_alerts (some alerts)) c h = ground arith
  advance-IsLiveAfter (subscribes_alerts ok) c h = ground arith
  advance-IsLiveAfter unmounts c h = ground arith

  received :
      (action : String) (r : SystemRecord) (n : ℕ) (live : Bool) (s : State S)
      → live ≡ true
      → on_systems S T (hub (changes_system action r)) n live s ≡ deliver S (message action r) s
  unfolding on_systems deliver
  received action r n live s on = rw on refl

  unasked :
      (response : Option (List SystemRecord)) (n : ℕ) (live : Bool) (s : State S)
      → 2 ≤ n
      → on_systems S T (answers_systems response) n live s ≡ s
  unfolding on_systems
  unasked response n live s past = ground arith

  track_late :
      (es : List Event) (c : Chain) (s : State S) → IsLive c → track es c s ≡ run S (delivered es) s
  unfolding track run
  track_late [] c s h = refl
  track_late (hub (changes_system action r) ∷ es) c s h =
      ap (track es c) (received action r c.answered c.systems_live s h.1.0)
      ∙ track_late es c (deliver S (message action r) s) h
  track_late (hub (changes_alert now m) ∷ es) c s h = track_late es c s h
  track_late (hub (passes now) ∷ es) c s h = track_late es c s h
  track_late (answers_systems response ∷ es) c s h =
      ap (track es (advance (answers_systems response) c))
        (unasked response c.answered c.systems_live s h.0)
      ∙ track_late es (advance (answers_systems response) c) s
          (advance-IsLiveAfter (answers_systems response) c h)
  track_late (subscribes_systems ok ∷ es) c s h =
      track_late es (advance (subscribes_systems ok) c) s
        (advance-IsLiveAfter (subscribes_systems ok) c h)
  track_late (answers_alerts response ∷ es) c s h =
      track_late es (advance (answers_alerts response) c) s
        (advance-IsLiveAfter (answers_alerts response) c h)
  track_late (subscribes_alerts ok ∷ es) c s h =
      track_late es (advance (subscribes_alerts ok) c) s
        (advance-IsLiveAfter (subscribes_alerts ok) c h)
  track_late (unmounts ∷ es) c s h =
      let (past, off) = advance-IsLiveAfter unmounts c h in track_over es (unsubscribe c) s past off

  session-run :
      (early gap : List HubEvent) (systems : List SystemRecord) (late : List Event) (s : State S)
      → track (session early systems gap late) fresh s
        ≡ run S (delivered late) (refresh S (some systems) s).0
  unfolding track advance on_systems systems_subscribed
  session-run early gap systems late s =
      track_missed early
        (answers_systems (some systems) ∷ (map hub gap ++ (subscribes_systems true ∷ late))) fresh s
        refl
      ∙ track_missed gap (subscribes_systems true ∷ late) (advance (answers_systems none) fresh)
          (refresh S (some systems) s).0 refl
      ∙ track_late late (systems_subscribed true fresh) (refresh S (some systems) s).0
          (omega arith, (refl, refl))

  -- Whatever changes at the hub before the systems are fetched and until the page is subscribed to
  -- them, and whatever comes later, the stores of systems are those of the directory that has the
  -- fetched systems and then the messages between the subscription and the end of the page. What
  -- changed between the fetch and the subscription is not among them.
  pub session-directory :
      (alerts : Manager T) (early gap : List HubEvent) (systems : List SystemRecord)
      (late : List Event) (k : String)
      → let s = (handle_all S T (session early systems gap late) (mounted S T alerts)).systems in
        let directory = enter_all (answer (some systems) ∷ delivered late) (λ j. none) in
        (value s.by_id k ≡ directory k)
        × ((st : SystemStatus) → value (status_store S st s) k ≡ filed st (directory k))
  unfolding run deliver
  session-directory alerts early gap systems late k =
      rw
        (
          systems-handle_all (session early systems gap late) (mounted S T alerts),
          session-run early gap systems late (init S (start S)),
        )
        (run-directory S (answer (some systems) ∷ delivered late) k)
