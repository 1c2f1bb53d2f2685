-- ===== src/Timeline/Replay.antt =====
-- reconstruction.py: the state of a policy at an instant, replayed from its history.
use inforsight.Common.{
  ℕ, String, not, Option, none, some, List, [], ◌∷◌, length, ltb, if◌then◌else◌,
}
use inforsight.Common.Result.{Result, ok, err, ◌>>=◌}
use inforsight.Timeline.Events.{
  PolicyEvent, HistoryError, second_issuance, replay_before_issuance, Contracts, PreparedEvent,
  payload_field, is_type,
}
use inforsight.Timeline.Checks.{prepare_and_validate_history}

-- state_values
pub record StateValues : Type 0 where
  pub policy_id : String
  pub status : String
  pub product_variant : String
  pub billing_frequency : String
  pub premium_amount_cents : String
  pub currency : String
  pub issued_at : ℕ

pub record PolicyState : Type 0 where
  pub values : StateValues
  pub as_of : ℕ
  pub applied_event_count : ℕ
  pub last_event_id : String
  pub last_effective_at : ℕ

-- _initial_state_values
unfoldable pub initial_state_values : PreparedEvent → Result HistoryError StateValues
unfolding payload_field
initial_state_values item = payload_field item "initial_status" >>= λ status.
    payload_field item "product_variant" >>= λ variant.
    payload_field item "billing_frequency" >>= λ frequency.
    payload_field item "premium_amount_cents" >>= λ premium.
    payload_field item "currency" >>= λ currency. ok (record {
      policy_id = item.event.policy_id;
      status = status;
      product_variant = variant;
      billing_frequency = frequency;
      premium_amount_cents = premium;
      currency = currency;
      issued_at = item.effective_at;
    })

-- One round of the loop, before and after the issuance.
unfoldable pub apply_first : PreparedEvent → Result HistoryError StateValues
unfolding initial_state_values
apply_first item =
    if is_type "policy.issued" item then initial_state_values item else err replay_before_issuance

unfoldable pub apply_next : StateValues → PreparedEvent → Result HistoryError StateValues
unfolding payload_field
apply_next v item =
    if is_type "policy.issued" item
    then err second_issuance
    else if is_type "policy.status_changed" item
    then (payload_field item "new_status" >>= λ new. ok (record v { status = new }))
    else ok v

unfoldable pub apply_all : StateValues → List PreparedEvent → Result HistoryError StateValues
unfolding apply_next
apply_all v [] = ok v
apply_all v (item ∷ items) = apply_next v item >>= λ w. apply_all w items

-- [item for item in prepared if item.effective_at <= cutoff]
unfoldable pub visible_by : ℕ → List PreparedEvent → List PreparedEvent
visible_by cutoff [] = []
visible_by cutoff (item ∷ items) =
    let rest = visible_by cutoff items in
    if not (ltb cutoff item.effective_at) then item ∷ rest else rest

-- selected[-1]
abbrev pub last_of : PreparedEvent → List PreparedEvent → PreparedEvent
last_of item [] = item
last_of item (next ∷ items) = last_of next items

-- The loop and what it returns.
unfoldable pub replay : ℕ → List PreparedEvent → Result HistoryError (Option PolicyState)
unfolding apply_first apply_all
replay cutoff [] = ok none
replay cutoff (item ∷ items) = apply_first item >>= λ v. apply_all v items >>= λ w. ok (
    some (record {
      values = w;
      as_of = cutoff;
      applied_event_count = length (item ∷ items);
      last_event_id = (last_of item items).event.event_id;
      last_effective_at = (last_of item items).effective_at;
    }))

-- reconstruct_policy_state, at a parsed cutoff
unfoldable pub reconstruct_policy_state :
    Contracts → List PolicyEvent → ℕ → Result HistoryError (Option PolicyState)
unfolding prepare_and_validate_history visible_by replay
reconstruct_policy_state k history cutoff = prepare_and_validate_history k history >>= λ prepared.
    replay cutoff (visible_by cutoff prepared)
