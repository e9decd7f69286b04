-- ===== src/Services/SimpleEngine.antt =====
-- `SimpleDecisionEngine` (crates/journey_dynamics/src/services/decision_engine.rs).
use journey_dynamics.Base.{
  String, Bool, false, ◌||◌, none, List, [], ◌∷◌, Result, ok, str_eq, if◌then◌else◌,
}
use journey_dynamics.Base.Text.{contains_text}
use journey_dynamics.Json.{
  Value, null, bool, number, string, array, object, Object, end, entry, Crates,
}
use journey_dynamics.Domain.Journey.{Journey, JourneyState, in_progress, complete}
use journey_dynamics.Services.{WorkflowDecision, DecisionEngine, default_evaluate_attributes}

has_key : String → Object → Bool
has_key key end = false
has_key key (entry k v rest) = str_eq k key || has_key key rest

-- `value.as_object().and_then(|obj| obj.get(key)).is_some()`
value_has_key : String → Value → Bool
unfolding has_key
value_has_key key (object map) = has_key key map
value_has_key key null = false
value_has_key key (bool b) = false
value_has_key key (number n) = false
value_has_key key (string s) = false
value_has_key key (array a) = false

any_value_has_key : String → Object → Bool
unfolding value_has_key
any_value_has_key key end = false
any_value_has_key key (entry k v rest) = value_has_key key v || any_value_has_key key rest

has_first_name : Value → Bool
unfolding any_value_has_key
has_first_name (object map) = any_value_has_key "first_name" map
has_first_name null = false
has_first_name (bool b) = false
has_first_name (number n) = false
has_first_name (string s) = false
has_first_name (array a) = false

suggest : JourneyState → String → Value → List String
unfolding has_first_name contains_text
suggest complete current_step accumulated = []
suggest in_progress current_step accumulated =
    if has_first_name accumulated
    then "form_3" ∷ []
    else if contains_text current_step "section_2"
    then "form_4" ∷ []
    else []

module _ (c : Crates) where
  unfoldable pub simple_next_steps : Journey → String → Value → Result String WorkflowDecision
  unfolding suggest
  simple_next_steps journey current_step new_data =
      let keyed_data = object (entry current_step new_data end) in
      let accumulated = c.merge journey.shared_data keyed_data in
      ok (record {
        suggested_actions = suggest journey.state current_step accumulated;
        phase = none;
      })

  abbrev pub simple_engine : DecisionEngine
  simple_engine = record {
    evaluate_next_steps = simple_next_steps;
    evaluate_attributes = default_evaluate_attributes c simple_next_steps;
  }
