-- ===== src/Timeline/Tests.antt =====
-- validation.py and reconstruction.py: a policy that lapses.
use inforsight.Common.{String, true, ◌≡◌, refl, some, List, [], ◌∷◌, length, arith}
use inforsight.Common.{codes}
use inforsight.Common.Dict.{Dict, get, put}
use inforsight.Common.Order.{text_le, lex_le}
use inforsight.Common.Sort.{sort, insert}
use inforsight.Common.Result.{ok, err}
use inforsight.Timeline.Events.{
  PolicyEvent, replay_before_issuance, Contracts, without_z, parse_utc_timestamp, payload_field,
  parse_date, is_supported_type, is_supported_transition, is_terminal, item_le,
}
use inforsight.Timeline.Preparation.{schemas_hold, prepare_history, take_in_all, take_in, parsed}
use inforsight.Timeline.Checks.{
  enter_billing, billing_of, enter_payment, enter_notice, payload_is, enter, enter_all,
  change_status, follow_statuses, status_events, paired, validate_statuses, lapses_follow,
  surrenders_follow, find_issuance, validate_timeline, prepare_and_validate_history,
}
use inforsight.Timeline.Replay.{
  PolicyState, initial_state_values, apply_first, apply_next, apply_all, visible_by, replay,
  reconstruct_policy_state,
}
use inforsight.Timeline.Statuses.{IsReachable}
use inforsight.Timeline.Lifetimes.{reconstruct-IsReachable, reconstruct-ended}

-- Instants are written as so many marks, and every date is the first day.
abbrev tally : Contracts
tally = record {
  schema_valid = λ e. true;
  instant_of = λ t. some (length (codes t));
  day_of = λ t. some 0;
}

abbrev event : String → String → String → Dict String → PolicyEvent
event id type when payload = record {
  policy_id = "pol_1";
  event_id = id;
  event_type = type;
  effective_at = when;
  occurred_at = when;
  ingested_at = when;
  payload = payload;
}

abbrev terms : Dict String
terms =
    ("initial_status", "active")
    ∷ ("product_variant", "term")
    ∷ ("billing_frequency", "monthly")
    ∷ ("premium_amount_cents", "4200")
    ∷ ("currency", "USD")
    ∷ []

abbrev change : String → String → Dict String
change previous new = ("previous_status", previous) ∷ ("new_status", new) ∷ []

-- The events in an order in which they might arrive.
abbrev lapsing : List PolicyEvent
lapsing =
    event "e6" "policy.status_changed" "|||||Z" (change "grace_period" "lapsed")
    ∷ event "e1" "policy.issued" "|Z" terms
    ∷ event "e3" "payment.failed" "||Z" (("billing_id", "b1") ∷ [])
    ∷ event "e2" "billing.premium_due" "||Z" (("billing_id", "b1") ∷ ("due_date", "d") ∷ [])
    ∷ event "e4" "policy.status_changed" "|||Z" (change "active" "grace_period")
    ∷ event "e5" "notice.sent" "||||Z" (("notice_type", "lapse_warning") ∷ [])
    ∷ event "e7" "outcome.lapsed" "|||||Z" []
    ∷ []

abbrev lapsed : PolicyState
lapsed = record {
  values = record {
    policy_id = "pol_1";
    status = "lapsed";
    product_variant = "term";
    billing_frequency = "monthly";
    premium_amount_cents = "4200";
    currency = "USD";
    issued_at = 1;
  };
  as_of = 5;
  applied_event_count = 7;
  last_event_id = "e7";
  last_effective_at = 5;
}

lapsed_run : reconstruct_policy_state tally lapsing 5 ≡ ok (some lapsed)
unfolding reconstruct_policy_state prepare_and_validate_history schemas_hold prepare_history
    take_in_all take_in parsed parse_utc_timestamp without_z is_supported_type sort insert item_le
    text_le lex_le validate_timeline find_issuance payload_field get put enter_all enter
    enter_billing parse_date billing_of enter_payment enter_notice payload_is validate_statuses
    follow_statuses change_status is_supported_transition is_terminal status_events paired
    lapses_follow surrenders_follow visible_by replay apply_first initial_state_values apply_all
    apply_next
lapsed_run = refl

lapsed_is_terminal : is_terminal lapsed.values.status ≡ true
unfolding is_terminal
lapsed_is_terminal = refl

reconstruct-IsReachable_example : IsReachable lapsed.values.status
reconstruct-IsReachable_example = reconstruct-IsReachable tally lapsing 5 lapsed lapsed_run

reconstruct-ended_example :
    reconstruct_policy_state tally lapsing 9 ≡ ok (some (record lapsed { as_of = 9 }))
reconstruct-ended_example =
    reconstruct-ended tally lapsing 5 lapsed 9 lapsed_run lapsed_is_terminal (omega arith)

-- A bill at the instant of the issuance whose id sorts first: the history is valid, and its replay
-- raises.
abbrev tied : List PolicyEvent
tied =
    event "e2" "policy.issued" "|Z" terms
    ∷ event "e1" "billing.premium_due" "|Z" (("billing_id", "b1") ∷ ("due_date", "d") ∷ [])
    ∷ []

tied_run : reconstruct_policy_state tally tied 5 ≡ err replay_before_issuance
unfolding reconstruct_policy_state prepare_and_validate_history schemas_hold prepare_history
    take_in_all take_in parsed parse_utc_timestamp without_z is_supported_type sort insert item_le
    text_le lex_le validate_timeline find_issuance payload_field get put enter_all enter
    enter_billing parse_date billing_of enter_payment enter_notice payload_is validate_statuses
    follow_statuses change_status is_supported_transition is_terminal status_events paired
    lapses_follow surrenders_follow visible_by replay apply_first initial_state_values apply_all
    apply_next
tied_run = refl
