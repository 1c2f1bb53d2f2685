-- ===== src/Timeline/Checks.antt =====
-- validation.py: _validate_timeline, _validate_statuses_and_outcomes and prepare_and_validate_history.
use inforsight.Common.{
  ℕ, String, Bool, true, false, not, ◌&&◌, ◌||◌, Option, none, some, List, [], ◌∷◌, ◌++◌, any,
  length, ltb, ◌==◌, str_eq, if◌then◌else◌,
}
use inforsight.Common.Dict.{Dict, get, put}
use inforsight.Common.Sort.{sort}
use inforsight.Common.Result.{Result, ok, err, ◌>>=◌, ◌>>◌, refuse_if}
use inforsight.Timeline.Events.{
  PolicyEvent, HistoryError, schema_failure, not_active, before_issuance, duplicate_billing_id,
  wrong_due_date, unknown_billing_id, before_billing, notice_early, status_mismatch,
  unsupported_transition, after_terminal, conflicting_outcomes, repeated_outcome, outcome_unpaired,
  outcome_apart, lapse_early, lapse_unwarned, surrender_early, not_one_issuance, Contracts,
  PreparedEvent, payload_field, parse_date, date_of, is_type, is_supported_transition, is_terminal,
  item_le, is_by, is_before,
}
use inforsight.Timeline.Preparation.{schemas_hold, prepare_history, is_empty}

-- The variables of the loop of _validate_timeline.
pub record Books : Type 0 where
  pub billing_events : Dict PreparedEvent
  pub failed_payments : List PreparedEvent
  pub lapse_warnings : List PreparedEvent
  pub surrender_inquiries : List PreparedEvent
  pub lapses : List PreparedEvent
  pub surrenders : List PreparedEvent

abbrev pub empty_books : Books
empty_books = record {
  billing_events = [];
  failed_payments = [];
  lapse_warnings = [];
  surrender_inquiries = [];
  lapses = [];
  surrenders = [];
}

unfoldable pub enter_billing : Contracts → Books → PreparedEvent → Result HistoryError Books
unfolding payload_field parse_date put get
enter_billing k b item = payload_field item "billing_id" >>= λ id.
    (refuse_if (elim (get id b.billing_events) [ none ↦ false | some _ ↦ true ])
        duplicate_billing_id
      >> (payload_field item "due_date" >>= λ text. parse_date k text >>= λ due.
          (refuse_if (not (due == date_of item.effective_at)) wrong_due_date
            >> ok (record b { billing_events = put id item b.billing_events }))))

-- The billing that a payment refers to.
unfoldable pub billing_of : Books → String → Result HistoryError PreparedEvent
unfolding get
billing_of b id = elim (get id b.billing_events) [
  | none ↦ err unknown_billing_id
  | some billing ↦ ok billing
]

unfoldable pub enter_payment : Books → PreparedEvent → Result HistoryError Books
unfolding payload_field billing_of
enter_payment b item = payload_field item "billing_id" >>= λ id. billing_of b id >>= λ billing.
    (refuse_if (is_before item billing) before_billing
      >> ok (
          if is_type "payment.failed" item
          then record b { failed_payments = b.failed_payments ++ item ∷ [] }
          else b))

unfoldable pub enter_notice : Books → PreparedEvent → Result HistoryError Books
unfolding payload_field
enter_notice b item = payload_field item "notice_type" >>= λ t.
    (refuse_if
        ((str_eq t "payment_reminder" || str_eq t "lapse_warning")
          && not (any (λ failure. is_by failure item) b.failed_payments))
        notice_early
      >> ok (
          if str_eq t "lapse_warning"
          then record b { lapse_warnings = b.lapse_warnings ++ item ∷ [] }
          else b))

-- payload.get(field) == value
unfoldable pub payload_is : String → String → PreparedEvent → Bool
unfolding get
payload_is field value item = elim (get field item.event.payload) [
  | none ↦ false
  | some v ↦ str_eq v value
]

-- One round of the loop.
unfoldable pub enter : Contracts → PreparedEvent → Books → PreparedEvent → Result HistoryError Books
unfolding enter_billing enter_payment enter_notice payload_is
enter k issuance b item =
    refuse_if (not (str_eq item.event.event_id issuance.event.event_id) && is_before item issuance)
      before_issuance
    >> (if is_type "billing.premium_due" item
        then enter_billing k b item
        else if is_type "payment.received" item || is_type "payment.failed" item
        then enter_payment b item
        else if is_type "notice.sent" item
        then enter_notice b item
        else ok (
            if is_type "service.contact_recorded" item
            then (if payload_is "reason" "surrender_inquiry" item
                then record b { surrender_inquiries = b.surrender_inquiries ++ item ∷ [] }
                else b)
            else if is_type "outcome.lapsed" item
            then record b { lapses = b.lapses ++ item ∷ [] }
            else if is_type "outcome.surrendered" item
            then record b { surrenders = b.surrenders ++ item ∷ [] }
            else b))

unfoldable pub enter_all :
    Contracts → PreparedEvent → Books → List PreparedEvent → Result HistoryError Books
unfolding enter
enter_all k issuance b [] = ok b
enter_all k issuance b (item ∷ items) =
    enter k issuance b item >>= λ c. enter_all k issuance c items

-- One round of the loop of _validate_statuses_and_outcomes on a status event.
unfoldable pub change_status :
    String → Option ℕ → PreparedEvent → Result HistoryError (String × Option ℕ)
unfolding payload_field is_supported_transition is_terminal
change_status status terminal_at item = payload_field item "previous_status" >>= λ previous.
    payload_field item "new_status" >>= λ new.
    (refuse_if (not (str_eq previous status)) status_mismatch
      >> (refuse_if (not (is_supported_transition previous new)) unsupported_transition
          >> ok (new, (if is_terminal new then some item.effective_at else terminal_at))))

abbrev pub is_after : Option ℕ → PreparedEvent → Bool
is_after none item = false
is_after (some t) item = ltb t item.effective_at

-- The loop: the last status, where no event raises.
unfoldable pub follow_statuses : String → Option ℕ → List PreparedEvent → Result HistoryError String
unfolding change_status
follow_statuses status terminal_at [] = ok status
follow_statuses status terminal_at (item ∷ items) =
    let rest = follow_statuses status terminal_at items in
    refuse_if (is_after terminal_at item) after_terminal
    >> (if is_type "policy.status_changed" item
        then (change_status status terminal_at item >>= λ next. follow_statuses next.0 next.1 items)
        else rest)

-- The status events with a new status, in order.
unfoldable pub status_events : String → List PreparedEvent → List PreparedEvent
unfolding payload_is
status_events new [] = []
status_events new (item ∷ items) =
    let rest = status_events new items in
    if is_type "policy.status_changed" item && payload_is "new_status" new item
    then item ∷ rest
    else rest

-- A terminal status and its outcome are there both or neither, and are effective together.
unfoldable pub paired : List PreparedEvent → List PreparedEvent → Result HistoryError (Unit {0})
paired [] [] = ok tt
paired [] (o ∷ os) = err outcome_unpaired
paired (s ∷ ss) [] = err outcome_unpaired
paired (s ∷ ss) (o ∷ os) = refuse_if (not (s.effective_at == o.effective_at)) outcome_apart

-- _validate_statuses_and_outcomes
unfoldable pub validate_statuses :
    List PreparedEvent → String → Books → Result HistoryError (Unit {0})
unfolding follow_statuses status_events paired
validate_statuses ordered initial_status b = follow_statuses initial_status none ordered >>= λ last.
    (refuse_if (not (is_empty b.lapses) && not (is_empty b.surrenders)) conflicting_outcomes
      >> (refuse_if (ltb 1 (length b.lapses) || ltb 1 (length b.surrenders)) repeated_outcome
          >> (paired (status_events "lapsed" ordered) b.lapses
              >> paired (status_events "surrendered" ordered) b.surrenders)))

-- The loop over the lapses, and that over the surrenders.
unfoldable pub lapses_follow : Books → List PreparedEvent → Result HistoryError (Unit {0})
lapses_follow b [] = ok tt
lapses_follow b (lapse ∷ rest) =
    refuse_if (not (any (λ failure. is_by failure lapse) b.failed_payments)) lapse_early
    >> (refuse_if (not (any (λ warning. is_by warning lapse) b.lapse_warnings)) lapse_unwarned
        >> lapses_follow b rest)

unfoldable pub surrenders_follow : Books → List PreparedEvent → Result HistoryError (Unit {0})
surrenders_follow b [] = ok tt
surrenders_follow b (surrender ∷ rest) =
    refuse_if (not (any (λ inquiry. is_by inquiry surrender) b.surrender_inquiries)) surrender_early
    >> surrenders_follow b rest

-- next(item for item in ordered if it is the issuance); the count has been checked to be one
unfoldable pub find_issuance : List PreparedEvent → Result HistoryError PreparedEvent
find_issuance [] = err not_one_issuance
find_issuance (item ∷ items) =
    let rest = find_issuance items in if is_type "policy.issued" item then ok item else rest

-- _validate_timeline
unfoldable pub validate_timeline : Contracts → List PreparedEvent → Result HistoryError (Unit {0})
unfolding find_issuance payload_field enter_all validate_statuses lapses_follow surrenders_follow
validate_timeline k ordered = find_issuance ordered >>= λ issuance.
    payload_field issuance "initial_status" >>= λ initial_status.
    (refuse_if (not (str_eq initial_status "active")) not_active
      >> (enter_all k issuance empty_books ordered >>= λ b.
          (validate_statuses ordered initial_status b
            >> (lapses_follow b b.lapses >> surrenders_follow b b.surrenders))))

-- prepare_and_validate_history; the empty history fails before the schema check is of any matter.
unfoldable pub prepare_and_validate_history :
    Contracts → List PolicyEvent → Result HistoryError (List PreparedEvent)
unfolding prepare_history validate_timeline item_le schemas_hold
prepare_and_validate_history k history =
    refuse_if (not (schemas_hold k history)) schema_failure
    >> (prepare_history k history >>= λ prepared.
        (validate_timeline k (sort item_le prepared) >> ok (sort item_le prepared)))
