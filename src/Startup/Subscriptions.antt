-- ===== src/Startup/Subscriptions.antt =====
-- The chain of internal/site/src/main.tsx with its four requests: it comes to its end.
use bezel_custom.Prelude.{
  ◌≡◌, refl, Bool, true, false, not, ◌&&◌, Option, none, some, List, [], ◌∷◌, ◌++◌, map, ◌∙◌,
}
use bezel_custom.Dict.{Dict}
use bezel_custom.Store.{MapStore}
use bezel_custom.Systems.{SystemRecord}
use bezel_custom.Alerts.{AlertRecord, Manager}
use bezel_custom.Startup.{
  Chain, HubEvent, Event, hub, answers_systems, subscribes_systems, answers_alerts,
  subscribes_alerts, advance, handle_all, mounted, fresh, systems_subscribed, alerts_answered,
  alerts_subscribed,
}
use bezel_custom.Startup.Steps.{chain_after, chain_after_hub, chain-handle_all}

abbrev pub is_answered : Option (List AlertRecord) → Bool
is_answered none = false
is_answered (some alerts) = true

-- The chain with the answers to its four requests, and changes of the hub between them.
abbrev pub requests :
    Option (List SystemRecord)
    → List HubEvent
    → Bool
    → List HubEvent
    → Option (List AlertRecord)
    → List HubEvent
    → Bool
    → List Event
requests systems a ok b alerts c also =
    answers_systems systems
    ∷ (map hub a
        ++ (subscribes_systems ok
            ∷ (map hub b
                ++ (answers_alerts alerts ∷ (map hub c ++ (subscribes_alerts also ∷ []))))))

abbrev pub ended : Bool → Bool → Chain
ended systems_on alerts_on = record {
  answered = 4;
  is_rejected = not alerts_on;
  systems_live = systems_on;
  systems_unsub = systems_on;
  alerts_live = alerts_on;
  alerts_unsub = alerts_on;
}

last_request :
    (systems_on also : Bool) (alerts : Option (List AlertRecord)) (c : List HubEvent) (s : Chain)
    → s ≡ record fresh { answered = 2; systems_live = systems_on; systems_unsub = systems_on }
    → chain_after (answers_alerts alerts ∷ (map hub c ++ (subscribes_alerts also ∷ []))) s
      ≡ ended systems_on (is_answered alerts && also)
unfolding chain_after advance alerts_answered alerts_subscribed
last_request on also none c s e = rw e (
    chain_after_hub c (subscribes_alerts also ∷ [])
      (alerts_answered none (record fresh { answered = 2; systems_live = on; systems_unsub = on })))
last_request on true (some alerts) c s e = rw e (
    chain_after_hub c (subscribes_alerts true ∷ [])
      (record fresh { answered = 3; systems_live = on; systems_unsub = on }))
last_request on false (some alerts) c s e = rw e (
    chain_after_hub c (subscribes_alerts false ∷ [])
      (record fresh { answered = 3; systems_live = on; systems_unsub = on }))

module _ (S : MapStore SystemRecord) (T : MapStore (Dict AlertRecord)) where
  -- When its four requests are answered the chain is through, whatever the answers are and
  -- whatever changes at the hub between them: the page is subscribed to systems exactly if that
  -- subscription succeeded, and to alerts exactly if the alerts were fetched and that subscription
  -- succeeded.
  pub requests_end :
      (manager : Manager T) (systems : Option (List SystemRecord))
      (alerts : Option (List AlertRecord)) (ok also : Bool) (a b c : List HubEvent)
      → (handle_all S T (requests systems a ok b alerts c also) (mounted S T manager)).chain
        ≡ ended ok (is_answered alerts && also)
  unfolding chain_after advance systems_subscribed
  requests_end manager systems alerts true also a b c =
      chain-handle_all S T (requests systems a true b alerts c also) (mounted S T manager)
      ∙ chain_after_hub a
          (subscribes_systems true
            ∷ (map hub b ++ (answers_alerts alerts ∷ (map hub c ++ (subscribes_alerts also ∷ [])))))
          (record fresh { answered = 1 })
      ∙ chain_after_hub b (answers_alerts alerts ∷ (map hub c ++ (subscribes_alerts also ∷ [])))
          (systems_subscribed true fresh)
      ∙ last_request true also alerts c (systems_subscribed true fresh) refl
  requests_end manager systems alerts false also a b c =
      chain-handle_all S T (requests systems a false b alerts c also) (mounted S T manager)
      ∙ chain_after_hub a
          (subscribes_systems false
            ∷ (map hub b ++ (answers_alerts alerts ∷ (map hub c ++ (subscribes_alerts also ∷ [])))))
          (record fresh { answered = 1 })
      ∙ chain_after_hub b (answers_alerts alerts ∷ (map hub c ++ (subscribes_alerts also ∷ [])))
          (systems_subscribed false fresh)
      ∙ last_request false also alerts c (systems_subscribed false fresh) refl
