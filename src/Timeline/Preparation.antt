-- ===== src/Timeline/Preparation.antt =====
-- validation.py: _validate_event_schemas, _prepare_history and prepare_and_validate_history up to
-- the timeline check. Events are well-shaped records, so the checks of shapes are left out.
use inforsight.Common.{
  ℕ, suc, String, Bool, true, false, not, List, [], ◌∷◌, ◌++◌, any, length, ltb, ◌==◌, str_eq,
  if◌then◌else◌,
}
use inforsight.Common.Result.{Result, ok, ◌>>=◌, ◌>>◌, refuse_if}
use inforsight.Timeline.Events.{
  PolicyEvent, HistoryError, empty_history, bad_policy_id, bad_event_id, duplicate_event_id,
  unsupported_event_type, ingested_early, many_policies, not_one_issuance, Contracts, PreparedEvent,
  parse_utc_timestamp, is_supported_type,
}

-- The first event that fails the schema.
unfoldable pub schemas_hold : Contracts → List PolicyEvent → Bool
schemas_hold k [] = true
schemas_hold k (e ∷ history) =
    let rest = schemas_hold k history in if k.schema_valid e then rest else false

-- The variables of the loop.
pub record Intake : Type 0 where
  pub prepared : List PreparedEvent
  pub policy_ids : List String
  pub event_ids : List String
  pub issuance_count : ℕ

abbrev pub empty_intake : Intake
empty_intake = record { prepared = []; policy_ids = []; event_ids = []; issuance_count = 0 }

-- ids.add(id)
abbrev pub with_id : String → List String → List String
with_id id ids = if any (str_eq id) ids then ids else id ∷ ids

abbrev pub counted : Bool → ℕ → ℕ
counted true n = suc n
counted false n = n

abbrev pub taken_in : Intake → PreparedEvent → Intake
taken_in s item = record {
  prepared = s.prepared ++ item ∷ [];
  policy_ids = with_id item.event.policy_id s.policy_ids;
  event_ids = item.event.event_id ∷ s.event_ids;
  issuance_count = counted (str_eq item.event.event_type "policy.issued") s.issuance_count;
}

-- The three times of an event.
unfoldable pub parsed : Contracts → PolicyEvent → Result HistoryError PreparedEvent
unfolding parse_utc_timestamp
parsed k e = parse_utc_timestamp k e.effective_at >>= λ effective.
    parse_utc_timestamp k e.occurred_at >>= λ occurred.
    parse_utc_timestamp k e.ingested_at >>= λ ingested.
    ok (record {
      event = e;
      effective_at = effective;
      occurred_at = occurred;
      ingested_at = ingested;
    })

-- One round of the loop.
unfoldable pub take_in : Contracts → Intake → PolicyEvent → Result HistoryError Intake
unfolding is_supported_type parsed
take_in k s e =
    refuse_if (str_eq e.policy_id "") bad_policy_id
    >> (refuse_if (str_eq e.event_id "") bad_event_id
        >> (refuse_if (any (str_eq e.event_id) s.event_ids) duplicate_event_id
            >> (refuse_if (not (is_supported_type e.event_type)) unsupported_event_type
                >> (parsed k e >>= λ item.
                    (refuse_if (ltb item.ingested_at item.occurred_at) ingested_early
                      >> ok (taken_in s item))))))

unfoldable pub take_in_all : Contracts → Intake → List PolicyEvent → Result HistoryError Intake
unfolding take_in
take_in_all k s [] = ok s
take_in_all k s (e ∷ history) = take_in k s e >>= λ t. take_in_all k t history

abbrev pub is_empty {ℓ} : {A : Type ℓ} → List A → Bool
is_empty [] = true
is_empty (_ ∷ _) = false

-- _prepare_history
unfoldable pub prepare_history :
    Contracts → List PolicyEvent → Result HistoryError (List PreparedEvent)
unfolding take_in_all
prepare_history k history =
    refuse_if (is_empty history) empty_history
    >> (take_in_all k empty_intake history >>= λ s.
        (refuse_if (not (length s.policy_ids == 1)) many_policies
          >> (refuse_if (not (s.issuance_count == 1)) not_one_issuance >> ok s.prepared)))
