-- ===== src/Timeline/Events.antt =====
-- validation.py: events, their parsed times, and what their check may raise. Payload values are
-- texts, numbers as they are written. The JSON schema check, datetime.fromisoformat and
-- date.fromisoformat are parameters.
use Prim.Native.Char.{code}
use inforsight.Common.{
  ℕ, ◌/◌, String, Bool, true, false, ◌&&◌, ◌||◌, not, Option, none, some, ltb, ◌==◌, str_eq,
  if◌then◌else◌,
}
use inforsight.Common.Order.{text_le}
use inforsight.Common.Dict.{Dict, get}
use inforsight.Common.Result.{Result, ok, err}

pub record PolicyEvent : Type 0 where
  pub policy_id : String
  pub event_id : String
  pub event_type : String
  pub effective_at : String
  pub occurred_at : String
  pub ingested_at : String
  pub payload : Dict String

-- The ValueErrors of validation.py and reconstruction.py, in the order of the source.
pub data HistoryError : Type 0 where
  empty_history schema_failure bad_timestamp bad_policy_id bad_event_id duplicate_event_id
        unsupported_event_type ingested_early many_policies not_one_issuance missing_field
        not_active before_issuance duplicate_billing_id bad_date wrong_due_date unknown_billing_id
        before_billing notice_early status_mismatch unsupported_transition after_terminal
        conflicting_outcomes repeated_outcome outcome_unpaired outcome_apart lapse_early
        lapse_unwarned surrender_early second_issuance replay_before_issuance :
      HistoryError

-- What the libraries decide: the schema check, the instant in microseconds of a UTC text without
-- its suffix, and the day of a date text.
pub record Contracts : Type 0 where
  pub schema_valid : PolicyEvent → Bool
  pub instant_of : String → Option ℕ
  pub day_of : String → Option ℕ

pub record PreparedEvent : Type 0 where
  pub event : PolicyEvent
  pub effective_at : ℕ
  pub occurred_at : ℕ
  pub ingested_at : ℕ

-- value.endswith("Z"), and value[:-1]
unfoldable pub without_z : String → Option String
without_z String.[] = none
without_z (String.◌∷◌ c String.[]) = if code c == b'Z' then some "" else none
without_z (String.◌∷◌ c (String.◌∷◌ d s)) = elim (without_z (String.◌∷◌ d s)) [
  | none ↦ none
  | some t ↦ some (String.◌∷◌ c t)
]

-- parse_utc_timestamp
unfoldable pub parse_utc_timestamp : Contracts → String → Result HistoryError ℕ
unfolding without_z
parse_utc_timestamp k value = elim (without_z value) [
  | none ↦ err bad_timestamp
  | some text ↦ elim (k.instant_of text) [ none ↦ err bad_timestamp | some t ↦ ok t ]
]

-- _payload_field
unfoldable pub payload_field : PreparedEvent → String → Result HistoryError String
unfolding get
payload_field item field = elim (get field item.event.payload) [
  | none ↦ err missing_field
  | some v ↦ ok v
]

-- _parse_date
unfoldable pub parse_date : Contracts → String → Result HistoryError ℕ
parse_date k value = elim (k.day_of value) [ none ↦ err bad_date | some d ↦ ok d ]

-- effective_at.date()
abbrev pub date_of : ℕ → ℕ
date_of instant = instant / 86400000000

abbrev pub is_type : String → PreparedEvent → Bool
is_type t item = str_eq item.event.event_type t

-- event_type in SUPPORTED_EVENT_TYPES
unfoldable pub is_supported_type : String → Bool
is_supported_type t =
    str_eq t "policy.issued"
    || str_eq t "policy.status_changed"
    || str_eq t "billing.premium_due"
    || str_eq t "payment.received"
    || str_eq t "payment.failed"
    || str_eq t "notice.sent"
    || str_eq t "service.contact_recorded"
    || str_eq t "outcome.lapsed"
    || str_eq t "outcome.surrendered"

-- (previous, new) in SUPPORTED_TRANSITIONS
unfoldable pub is_supported_transition : String → String → Bool
is_supported_transition previous new =
    (str_eq previous "active" && str_eq new "grace_period")
    || (str_eq previous "grace_period" && str_eq new "active")
    || (str_eq previous "grace_period" && str_eq new "lapsed")
    || (str_eq previous "active" && str_eq new "surrendered")

-- status in TERMINAL_OUTCOMES
unfoldable pub is_terminal : String → Bool
is_terminal status = str_eq status "lapsed" || str_eq status "surrendered"

-- key=lambda item: (item.effective_at, item.occurred_at, item.event["event_id"])
unfoldable pub item_le : PreparedEvent → PreparedEvent → Bool
unfolding text_le
item_le a b =
    if ltb a.effective_at b.effective_at
    then true
    else if ltb b.effective_at a.effective_at
    then false
    else if ltb a.occurred_at b.occurred_at
    then true
    else if ltb b.occurred_at a.occurred_at
    then false
    else text_le a.event.event_id b.event.event_id

-- `a` is effective and has occurred no later than `b`.
abbrev pub is_by : PreparedEvent → PreparedEvent → Bool
is_by a b = not (ltb b.effective_at a.effective_at) && not (ltb b.occurred_at a.occurred_at)

abbrev pub is_before : PreparedEvent → PreparedEvent → Bool
is_before a b = ltb a.effective_at b.effective_at || ltb a.occurred_at b.occurred_at
