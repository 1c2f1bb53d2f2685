-- ===== src/Rules/Tests.antt =====
-- Runs of the eligibility engine on a small catalog, and instances of its theorems.
use mathlib.Core.List.{Memᴰ}
use inforsight.Common.{
  String, true, false, ◌≡◌, ◌↔◌, refl, Option, none, some, [], ◌∷◌, contains, lower_is,
}
use inforsight.Common.Int.{pos}
use inforsight.Common.Dict
use inforsight.Common.Result.{ok, err}
use inforsight.Rules.Models.{
  DateTime, PyValue, py_none, py_bool, py_int, py_text, PolicyContext, ConservationActionDefinition,
  is_eligible, sms_field, get_reasons, contact_cooling_off_active, minimum_tenure_not_met,
}
use inforsight.Rules.Context.{ContextMapping, Parsers, ReadContext, from_dict}
use inforsight.Rules.Invariants.{
  evaluate_legal_freeze, evaluate_policy_viability, evaluate_channel_consent,
  evaluate_contact_cooling_off, evaluate_grace_period, evaluate_tenure_bounds, elapsed_days,
}
use inforsight.Rules.Engine.{
  Catalog, status_without_lower, init_catalog, global_safety_missing, evaluate, evaluate_action,
  evaluate_mapping, disqualifications, fill, channel_verdict, missing_channel_evidence,
}
use inforsight.Rules.Checks.{Permits}
use inforsight.Rules.Eligibility.{IsOpen, IsAnswered, evaluate-offers, evaluate-abstain}
use inforsight.Rules.Results.{evaluate-is_frozen, evaluate-is_eligible}
use inforsight.Rules.Mapping.{
  IsWellFormed, IsNoText, IsClear, evaluate_mapping-offers, evaluate_mapping-raises,
}

abbrev reminder : ConservationActionDefinition
reminder = record {
  action_id = "act_courtesy_reminder_v1";
  action_type = "courtesy_reminder";
  channel = "sms";
  regulatory_cooling_off_days = pos 30;
  minimum_policy_tenure_days = pos 30;
  maximum_policy_tenure_days = none;
  requires_grace_period = false;
  required_safety_evidence = sms_field ∷ [];
}

abbrev small_catalog : Catalog
small_catalog = init_catalog (reminder ∷ [])

abbrev noon : DateTime
noon = record { instant = 63900000000000000; offset = some (pos 0) }

abbrev healthy : PolicyContext
healthy = record {
  policy_id = py_text "pol_1";
  as_of = noon;
  status = "Active";
  tenure_days = pos 400;
  in_grace_period = false;
  days_past_due = none;
  has_active_claim = some false;
  has_legal_hold = some false;
  has_registered_dispute = some false;
  sms_opt_out = some false;
  email_opt_out = none;
  phone_opt_out = none;
  dnc_registered = none;
  last_contact_date = none;
}

abbrev young : PolicyContext
young = record healthy {
  tenure_days = pos 3;
  last_contact_date = some (record noon { instant = 63899000000000000 });
}

healthy_offered :
    (evaluate small_catalog healthy).eligible_actions ≡ "courtesy_reminder" ∷ "abstain" ∷ []
unfolding evaluate init_catalog global_safety_missing evaluate_legal_freeze
    evaluate_policy_viability fill evaluate_action disqualifications channel_verdict
    missing_channel_evidence evaluate_channel_consent evaluate_contact_cooling_off
    evaluate_grace_period evaluate_tenure_bounds lower_is
healthy_offered = refl

-- Both reasons are recorded, in the order of the invariants.
young_reasons :
    get_reasons (evaluate small_catalog young) "courtesy_reminder"
    ≡ contact_cooling_off_active ∷ minimum_tenure_not_met ∷ []
unfolding get_reasons evaluate init_catalog global_safety_missing evaluate_legal_freeze
    evaluate_policy_viability fill evaluate_action disqualifications channel_verdict
    missing_channel_evidence evaluate_channel_consent evaluate_contact_cooling_off
    evaluate_grace_period evaluate_tenure_bounds elapsed_days lower_is Dict.get Dict.put
young_reasons = refl

evaluate-offers_example :
    (contains "courtesy_reminder" (evaluate small_catalog healthy).eligible_actions ≡ true) ↔ (
      IsOpen healthy
      × ((a : ConservationActionDefinition) × Memᴰ a small_catalog
          × (a.action_type ≡ "courtesy_reminder")
          × Permits healthy a))
evaluate-offers_example = evaluate-offers small_catalog healthy "courtesy_reminder" refl

evaluate-abstain_example :
    (contains "abstain" (evaluate (init_catalog (reminder ∷ [])) young).eligible_actions ≡ true)
    ↔ IsAnswered young
evaluate-abstain_example = evaluate-abstain (reminder ∷ []) young

evaluate-is_frozen_example :
    ((evaluate small_catalog healthy).is_frozen ≡ false)
    ↔ ((some false ≡ some false) × (some false ≡ some false) × (some false ≡ some false))
evaluate-is_frozen_example = evaluate-is_frozen small_catalog healthy

evaluate-is_eligible_example :
    is_eligible (evaluate small_catalog young) "courtesy_reminder"
    ≡ contains "courtesy_reminder" (evaluate small_catalog young).eligible_actions
unfolding init_catalog
evaluate-is_eligible_example =
    evaluate-is_eligible small_catalog young "courtesy_reminder" (refl, (refl, tt))

abbrev clock_parsers : Parsers
clock_parsers = record {
  iso_utc = λ _. some 63900000000000000;
  int_of_text = λ _. none;
  int_of_other = λ _. none;
  truth_of_other = λ _. true;
}

abbrev no_flag : Option PyValue
no_flag = some (py_bool false)

abbrev healthy_mapping : ContextMapping
healthy_mapping = record {
  policy_id = some (py_text "pol_1");
  as_of = some (py_text "2025-11-27T12:00:00Z");
  status = some (py_text "Active");
  tenure_days = some (py_int (pos 400));
  in_grace_period = no_flag;
  days_past_due = none;
  has_active_claim = no_flag;
  has_legal_hold = no_flag;
  has_registered_dispute = no_flag;
  sms_opt_out = no_flag;
  email_opt_out = none;
  phone_opt_out = none;
  dnc_registered = none;
  last_contact_date = none;
}

-- The context that the mapping is read as.
abbrev read_context : PolicyContext
read_context = record {
  policy_id = py_text "pol_1";
  as_of = noon;
  status = "Active";
  tenure_days = pos 400;
  in_grace_period = false;
  days_past_due = none;
  has_active_claim = some false;
  has_legal_hold = some false;
  has_registered_dispute = some false;
  sms_opt_out = some false;
  email_opt_out = none;
  phone_opt_out = none;
  dnc_registered = none;
  last_contact_date = none;
}

mapping_answer :
    evaluate_mapping clock_parsers small_catalog noon healthy_mapping
    ≡ ok (evaluate small_catalog read_context)
unfolding evaluate_mapping from_dict
mapping_answer = refl

mapping_offered :
    contains "courtesy_reminder" (evaluate small_catalog read_context).eligible_actions ≡ true
unfolding evaluate init_catalog global_safety_missing evaluate_legal_freeze
    evaluate_policy_viability fill evaluate_action disqualifications channel_verdict
    missing_channel_evidence evaluate_channel_consent evaluate_contact_cooling_off
    evaluate_grace_period evaluate_tenure_bounds lower_is
mapping_offered = refl

evaluate_mapping-offers_example :
    (status : String) × (c : PolicyContext) × (from_dict clock_parsers healthy_mapping
      ≡ ok (py_text status, c))
    × IsWellFormed clock_parsers (py_text status, c)
    × IsOpen c
    × ((a : ConservationActionDefinition) × Memᴰ a small_catalog
        × (a.action_type ≡ "courtesy_reminder")
        × Permits c a)
evaluate_mapping-offers_example =
    evaluate_mapping-offers clock_parsers small_catalog noon healthy_mapping "courtesy_reminder"
      (evaluate small_catalog read_context) refl mapping_answer mapping_offered

-- The status is missing a value.
abbrev no_status : ContextMapping
no_status = record healthy_mapping { status = some py_none }

raised : evaluate_mapping clock_parsers small_catalog noon no_status ≡ err status_without_lower
unfolding evaluate_mapping from_dict
raised = refl

evaluate_mapping-raises_example :
    (evaluate_mapping clock_parsers small_catalog noon no_status ≡ err status_without_lower)
    ↔ ((r : ReadContext) × (from_dict clock_parsers no_status ≡ ok r) × IsNoText r.0 × IsClear r.1)
evaluate_mapping-raises_example = evaluate_mapping-raises clock_parsers small_catalog noon no_status
