-- ===== src/Routing/Examples.antt =====
-- The theorems about routing at concrete requests.
use control_deck.Prelude.{refl, none, some, [], ◌∷◌}
use control_deck.Routing.Capabilities.{Endpoint, required_capabilities}
use control_deck.Routing.Complexity.{is_complex, codes, compute_complexity_signals}
use control_deck.Routing.Select.{Reason, named_model, select_model}
use control_deck.Routing.Select.Laws.{IsServed, select_model-IsServed}
use control_deck.Routing.Select.Errors.{ExplicitOutcome, select_model-ExplicitOutcome}
use control_deck.Routing.Select.Preference.{IsPreferred, select_model-IsPreferred}
use control_deck.Samples.{fleet, ask, hello}

select_model-IsServed_example :
    IsServed fleet (required_capabilities (ask (some "auto") none hello) Endpoint.chat) "small"
unfolding select_model
select_model-IsServed_example =
    select_model-IsServed (ask (some "auto") none hello) fleet Endpoint.chat
      {reason = Reason.complexity_fast} refl

select_model-ExplicitOutcome_example :
    ExplicitOutcome "small" fleet
      (required_capabilities (ask (some "small") (some (codes "f" ∷ [])) hello) Endpoint.chat)
      (select_model (ask (some "small") (some (codes "f" ∷ [])) hello) fleet Endpoint.chat)
unfolding named_model
select_model-ExplicitOutcome_example =
    select_model-ExplicitOutcome (ask (some "small") (some (codes "f" ∷ [])) hello) fleet
      Endpoint.chat "small" refl

-- Only the large model can use tools, and the request is not complex.
select_model-IsPreferred_example :
    IsPreferred fleet
      (required_capabilities (ask none (some (codes "f" ∷ [])) hello) Endpoint.chat)
      (is_complex (compute_complexity_signals (ask none (some (codes "f" ∷ [])) hello)))
      "big"
      Reason.complexity_large
unfolding select_model named_model
select_model-IsPreferred_example =
    select_model-IsPreferred (ask none (some (codes "f" ∷ [])) hello) fleet Endpoint.chat
      {id = "big"} {reason = Reason.complexity_large} refl refl
