-- ===== src/Startup/Steps.antt =====
-- The steps of the chain of internal/site/src/main.tsx, on their own.
use bezel_custom.Prelude.{◌≡◌, refl, List, [], ◌∷◌, ◌++◌, map}
use bezel_custom.Dict.{Dict}
use bezel_custom.Store.{MapStore}
use bezel_custom.Systems.{SystemRecord}
use bezel_custom.Alerts.{AlertRecord}
use bezel_custom.Startup.{Chain, HubEvent, Event, Page, hub, advance, handle, handle_all}

unfoldable pub chain_after : List Event → Chain → Chain
unfolding advance
chain_after [] c = c
chain_after (e ∷ es) c = chain_after es (advance e c)

pub chain_after_hub :
    (es : List HubEvent) (rest : List Event) (c : Chain)
    → chain_after (map hub es ++ rest) c ≡ chain_after rest c
unfolding chain_after advance
chain_after_hub [] rest c = refl
chain_after_hub (e ∷ es) rest c = chain_after_hub es rest c

pub chain_after-append :
    (es rest : List Event) (c : Chain)
    → chain_after (es ++ rest) c ≡ chain_after rest (chain_after es c)
unfolding chain_after
chain_after-append [] rest c = refl
chain_after-append (e ∷ es) rest c = chain_after-append es rest (advance e c)

module _ (S : MapStore SystemRecord) (T : MapStore (Dict AlertRecord)) where
  pub chain-handle_all :
      (es : List Event) (p : Page S T) → (handle_all S T es p).chain ≡ chain_after es p.chain
  unfolding handle_all handle chain_after
  chain-handle_all [] p = refl
  chain-handle_all (e ∷ es) p = chain-handle_all es (handle S T e p)
