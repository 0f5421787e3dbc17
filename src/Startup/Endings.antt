-- ===== src/Startup/Endings.antt =====
-- The end of the page of internal/site/src/main.tsx, which ends the subscriptions that the page has
-- got.
use bezel_custom.Prelude.{
  ◌≡◌, ◌≤◌, sym, true, false, none, some, List, [], ◌∷◌, ◌++◌, ◌∙◌, ap, arith,
}
use bezel_custom.Dict.{Dict}
use bezel_custom.Store.{MapStore}
use bezel_custom.Systems.{SystemRecord}
use bezel_custom.Alerts.{AlertRecord, Manager}
use bezel_custom.Startup.{
  Chain, Event, hub, answers_systems, subscribes_systems, answers_alerts, subscribes_alerts,
  unmounts, advance, handle_all, mounted, fresh, systems_subscribed, alerts_answered,
  alerts_subscribed, unsubscribe,
}
use bezel_custom.Startup.Steps.{chain_after, chain_after-append, chain-handle_all}

-- A subscription is on only if the page holds the function that ends it, and a chain that is through
-- gets no other.
abbrev IsHeld : Chain → Type 0
IsHeld c =
    (c.systems_live ≡ true → c.systems_unsub ≡ true)
    × (c.alerts_live ≡ true → c.alerts_unsub ≡ true)

advance-IsHeld : (e : Event) (c : Chain) → IsHeld c → IsHeld (advance e c)
unfolding advance systems_subscribed alerts_answered alerts_subscribed unsubscribe
advance-IsHeld (hub e) c h = h
advance-IsHeld (answers_systems response) c h = ground arith
advance-IsHeld (subscribes_systems ok) c h = ground arith
advance-IsHeld (answers_alerts none) c h = ground arith
advance-IsHeld (answers_alerts (some alerts)) c h = ground arith
advance-IsHeld (subscribes_alerts ok) c h = ground arith
advance-IsHeld unmounts c h = ground arith

chain_after-IsHeld : (es : List Event) (c : Chain) → IsHeld c → IsHeld (chain_after es c)
unfolding chain_after
chain_after-IsHeld [] c h = h
chain_after-IsHeld (e ∷ es) c h = chain_after-IsHeld es (advance e c) (advance-IsHeld e c h)

abbrev IsSilent : Chain → Type 0
IsSilent c = (4 ≤ c.answered) × ((c.systems_live ≡ false) × (c.alerts_live ≡ false))

advance-IsSilent : (e : Event) (c : Chain) → IsSilent c → IsSilent (advance e c)
unfolding advance unsubscribe alerts_answered alerts_subscribed systems_subscribed
advance-IsSilent (hub e) c h = h
advance-IsSilent (answers_systems response) c h = ground arith
advance-IsSilent (subscribes_systems ok) c h = ground arith
advance-IsSilent (answers_alerts none) c h = ground arith
advance-IsSilent (answers_alerts (some alerts)) c h = ground arith
advance-IsSilent (subscribes_alerts ok) c h = ground arith
advance-IsSilent unmounts c h = ground arith

chain_after-IsSilent : (es : List Event) (c : Chain) → IsSilent c → IsSilent (chain_after es c)
unfolding chain_after
chain_after-IsSilent [] c h = h
chain_after-IsSilent (e ∷ es) c h = chain_after-IsSilent es (advance e c) (advance-IsSilent e c h)

-- The end of a page whose chain is through.
unsubscribe-IsSilent : (c : Chain) → 4 ≤ c.answered → IsHeld c → IsSilent (unsubscribe c)
unfolding unsubscribe
unsubscribe-IsSilent c through h = ground arith

module _ (S : MapStore SystemRecord) (T : MapStore (Dict AlertRecord)) where
  -- If the chain of a page is through, a page that ends then has no subscription any more,
  -- whatever comes later.
  pub unmounts_ends :
      (manager : Manager T) (es later : List Event)
      → (handle_all S T es (mounted S T manager)).chain.answered ≡ 4
      → let c = (handle_all S T (es ++ (unmounts ∷ later)) (mounted S T manager)).chain in
        (c.systems_live ≡ false) × (c.alerts_live ≡ false)
  unfolding chain_after advance
  unmounts_ends manager es later through =
      let silent = chain_after-IsSilent later (unsubscribe (chain_after es fresh)) (
        unsubscribe-IsSilent (chain_after es fresh)
          (rw
            (sym (ap (λ (c : Chain). c.answered) (chain-handle_all S T es (mounted S T manager)))
              ∙ through)
            (omega arith))
          (chain_after-IsHeld es fresh (λ never. cc, λ never. cc))) in
      rw
        (chain-handle_all S T (es ++ (unmounts ∷ later)) (mounted S T manager)
          ∙ chain_after-append es (unmounts ∷ later) fresh)
        silent.1
