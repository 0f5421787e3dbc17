-- ===== src/Startup.antt =====
-- The effect of App in internal/site/src/main.tsx: the chain that fetches the systems and the alerts
-- and subscribes to both, with subscribe and unsubscribe of internal/site/src/lib/systemsManager.ts and
-- of internal/site/src/lib/alerts.ts. It is about one mount of the component; the hub sends messages
-- from the time that it answers a subscription, and the answer to verifyAuth is left out. The end of
-- the page is the cleanup of the effect alone: logOut, which also clears the stores and calls
-- pb.realtime.unsubscribe(), is not an event of this model.
pub mod Subscriptions
pub mod Endings
mod Steps
pub mod Sessions
mod Tests
use bezel_custom.Prelude.{
  ℕ, String, Bool, true, false, Option, none, some, List, [], ◌∷◌, if◌then◌else◌, ◌==◌,
}
use bezel_custom.Dict.{Dict}
use bezel_custom.Store.{MapStore}
use bezel_custom.Systems.{SystemRecord, State, init, dispatch, start}
use bezel_custom.Alerts.{AlertRecord, Message, Manager, batch_update, elapse, refresh}

-- How many of its four requests the chain has answers to, four also where it was rejected; whether
-- the hub sends messages about systems and alerts, and whether the managers hold the functions that
-- end this.
pub record Chain : Type 0 where
  pub answered : ℕ
  pub is_rejected : Bool
  pub systems_live : Bool
  pub systems_unsub : Bool
  pub alerts_live : Bool
  pub alerts_unsub : Bool

-- A change at the hub or the time that passes.
pub data HubEvent : Type 0 where
  changes_system : String → SystemRecord → HubEvent
  changes_alert : ℕ → Message → HubEvent
  passes : ℕ → HubEvent

-- An answer is `none` or `false` where the request failed.
pub data Event : Type 0 where
  hub : HubEvent → Event
  answers_systems : Option (List SystemRecord) → Event
  subscribes_systems : Bool → Event
  answers_alerts : Option (List AlertRecord) → Event
  subscribes_alerts : Bool → Event
  unmounts : Event

abbrev pub fresh : Chain
fresh = record {
  answered = 0;
  is_rejected = false;
  systems_live = false;
  systems_unsub = false;
  alerts_live = false;
  alerts_unsub = false;
}

-- subscribe of the manager of systems catches a failure, that of alerts does not.
unfoldable pub systems_subscribed : Bool → Chain → Chain
systems_subscribed ok c =
    if ok
    then record c { answered = 2; systems_live = true; systems_unsub = true }
    else record c { answered = 2 }

unfoldable pub alerts_answered : Option (List AlertRecord) → Chain → Chain
alerts_answered none c = record c { answered = 4; is_rejected = true }
alerts_answered (some alerts) c = record c { answered = 3 }

unfoldable pub alerts_subscribed : Bool → Chain → Chain
alerts_subscribed ok c =
    if ok
    then record c { answered = 4; alerts_live = true; alerts_unsub = true }
    else record c { answered = 4; is_rejected = true }

-- The cleanup of the effect: `unsub?.()`, which the manager of systems forgets.
unfoldable pub unsubscribe : Chain → Chain
unsubscribe c = record c {
  alerts_live = if c.alerts_unsub then false else c.alerts_live;
  systems_live = if c.systems_unsub then false else c.systems_live;
  systems_unsub = false;
}

-- An answer that the chain does not wait for does not come.
unfoldable pub advance : Event → Chain → Chain
unfolding systems_subscribed alerts_answered alerts_subscribed unsubscribe
advance (hub e) c = c
advance (answers_systems response) c = if c.answered == 0 then record c { answered = 1 } else c
advance (subscribes_systems ok) c = if c.answered == 1 then systems_subscribed ok c else c
advance (answers_alerts response) c = if c.answered == 2 then alerts_answered response c else c
advance (subscribes_alerts ok) c = if c.answered == 3 then alerts_subscribed ok c else c
advance unmounts c = unsubscribe c

module _ (S : MapStore SystemRecord) (T : MapStore (Dict AlertRecord)) where
  pub record Page : Type 0 where
    pub chain : Chain
    pub systems : State S
    pub alerts : Manager T

  -- What an event does to the stores of systems.
  unfoldable pub on_systems : Event → ℕ → Bool → State S → State S
  on_systems (hub (changes_system action r)) answered live s =
      if live then dispatch S action r s else s
  on_systems (answers_systems response) answered live s =
      if answered == 0 then (bezel_custom.Systems.refresh S response s).0 else s
  on_systems e answered live s = s

  unfoldable pub on_alerts : Event → ℕ → Bool → Manager T → Manager T
  on_alerts (hub (changes_alert now m)) answered live s = if live then batch_update T now m s else s
  on_alerts (hub (passes now)) answered live s = elapse T now s
  on_alerts (answers_alerts (some alerts)) answered live s =
      if answered == 2 then refresh T alerts s else s
  on_alerts e answered live s = s

  unfoldable pub handle : Event → Page → Page
  unfolding on_systems on_alerts advance
  handle e p = record {
    chain = advance e p.chain;
    systems = on_systems e p.chain.answered p.chain.systems_live p.systems;
    alerts = on_alerts e p.chain.answered p.chain.alerts_live p.alerts;
  }

  unfoldable pub handle_all : List Event → Page → Page
  unfolding handle
  handle_all [] p = p
  handle_all (e ∷ es) p = handle_all es (handle e p)

  -- The page as the effect starts, after init.
  abbrev pub mounted : Manager T → Page
  mounted alerts = record { chain = fresh; systems = init S (start S); alerts = alerts }
