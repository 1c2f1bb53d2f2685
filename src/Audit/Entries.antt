-- ===== src/Audit/Entries.antt =====
-- audit/ledger.py: an audit record, and its dictionary as it stands in the log.
use inforsight.Common.{ℕ, String, Option, none, some}
use Prim.Native.String.{◌++◌}
use inforsight.Workflow.Models.{
  CaseState, none_yet, created, triaged, evidence_assembled, recommended, human_reviewed, executed,
  dismissed, resolved, ReviewDecision, approved, overridden, rejected, HumanReview,
}
use inforsight.Workflow.Service.{AuditRow, ParsedTime}

-- What a key of a dictionary holds: nothing, None, or a text.
pub data Field : Type 0 where
  absent null : Field
  text : String → Field

-- field or None
abbrev pub text_of : Field → Option String
text_of absent = none
text_of null = none
text_of (text s) = some s

-- A review dictionary with at least one key; `none` is an absent key.
pub record RawReview : Type 0 where
  pub reviewer_id : Option String
  pub reviewed_at : Field
  pub decision : Option String
  pub rationale_code : Field
  pub justification : Field

-- What the key `human_review` holds: nothing, None, an empty dictionary, or one with keys.
pub data ReviewField : Type 0 where
  no_key no_review empty_review : ReviewField
  given : RawReview → ReviewField

-- The review that `if hr:` finds.
abbrev pub review_of : ReviewField → Option RawReview
review_of no_key = none
review_of no_review = none
review_of empty_review = none
review_of (given r) = some r

-- A record's dictionary less `entry_hash`; `none` is an absent key. The decision context, the
-- action, the metadata and all further keys, those of the review included, are one text.
pub record RawPayload : Type 0 where
  pub audit_entry_id : Option String
  pub sequence_number : Option ℕ
  pub timestamp : Option String
  pub case_id : Option String
  pub policy_id : Option String
  pub case_event_id : Option String
  pub from_state : Option String
  pub to_state : Option String
  pub human_review : ReviewField
  pub content : String
  pub prev_hash : Option String

pub record RawEntry : Type 0 where
  pub payload : RawPayload
  pub entry_hash : Option String

-- AuditRecord; `row` is what `append` was given.
pub record AuditRecord : Type 0 where
  pub audit_entry_id : String
  pub sequence_number : ℕ
  pub row : AuditRow
  pub prev_hash : String
  pub entry_hash : String

-- What the ledger and the verifier compute through libraries: `canonical_json_dumps` is json.dumps
-- of the payload with its keys sorted, `content_text` the JSON of the parts that are one text.
pub record Hashing : Type 0 where
  pub compute_sha256 : String → String
  pub canonical_json_dumps : RawPayload → String
  pub content_text : AuditRow → String
  pub parse_time : String → ParsedTime
  pub genesis_hash : String

-- f"{prev_hash}{payload_str}"
abbrev pub preimage : Hashing → String → RawPayload → String
preimage h prev x = prev ++ h.canonical_json_dumps x

abbrev pub state_value : CaseState → String
state_value none_yet = "NONE"
state_value created = "CREATED"
state_value triaged = "TRIAGED"
state_value evidence_assembled = "EVIDENCE_ASSEMBLED"
state_value recommended = "RECOMMENDED"
state_value human_reviewed = "HUMAN_REVIEWED"
state_value executed = "EXECUTED"
state_value dismissed = "DISMISSED"
state_value resolved = "RESOLVED"

abbrev pub decision_value : ReviewDecision → String
decision_value approved = "APPROVED"
decision_value overridden = "OVERRIDDEN"
decision_value rejected = "REJECTED"

abbrev justification_field : Option String → Field
justification_field none = absent
justification_field (some s) = text s

-- HumanReview.to_dict
abbrev pub review_dict : HumanReview → RawReview
review_dict r = record {
  reviewer_id = some r.reviewer_id;
  reviewed_at = text r.reviewed_at;
  decision = some (decision_value r.decision);
  rationale_code = text r.rationale_code;
  justification = justification_field r.justification;
}

-- hr_dict of the service
abbrev optional_review : Option HumanReview → ReviewField
optional_review none = no_review
optional_review (some r) = given (review_dict r)

-- The record_dict of `append`; `payload_for_hashing` of the record is the same dictionary.
abbrev pub payload_dict : Hashing → String → ℕ → AuditRow → String → RawPayload
payload_dict h entry_id sequence row prev = record {
  audit_entry_id = some entry_id;
  sequence_number = some sequence;
  timestamp = some row.timestamp;
  case_id = some row.case_id;
  policy_id = some row.policy_id;
  case_event_id = some row.case_event_id;
  from_state = some (state_value row.from_state);
  to_state = some (state_value row.to_state);
  human_review = optional_review row.human_review;
  content = h.content_text row;
  prev_hash = some prev;
}

-- AuditRecord.to_dict
abbrev pub to_dict : Hashing → AuditRecord → RawEntry
to_dict h r = record {
  payload = payload_dict h r.audit_entry_id r.sequence_number r.row r.prev_hash;
  entry_hash = some r.entry_hash;
}
