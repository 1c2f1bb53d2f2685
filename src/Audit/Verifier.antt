-- ===== src/Audit/Verifier.antt =====
-- audit/verifier.py: verify_records, over the dictionaries of a log.
use inforsight.Common.{
  ℕ, suc, ◌+◌, String, Bool, true, false, not, ◌&&◌, ◌||◌, Option, none, some, List, [], ◌∷◌,
  contains, last?, ltb, ◌==◌, length, str_eq, is_some, if◌then◌else◌,
}
use inforsight.Common.Result.{Result, ok, err, ◌>>=◌, ◌>>◌, refuse_if}
use inforsight.Workflow.Models.{reviewer_id_matches, justification_missing}
use inforsight.Workflow.Service.{ParsedTime, malformed, naive, at}
use inforsight.Audit.Entries.{
  RawReview, RawPayload, RawEntry, Hashing, preimage, text_of, review_of,
}

pub data Violation : Type 0 where
  sequence_broken field_missing timestamp_inverted timestamp_invalid chain_broken : Violation
  hash_mismatch autonomous_execution review_missing reviewer_invalid : Violation
  decision_invalid justification_required : Violation

-- The variables of the loop.
pub record Progress : Type 0 where
  pub cases : List String
  pub policies : List String
  pub reviewers : List String
  pub approved : ℕ
  pub overridden : ℕ
  pub rejected : ℕ
  pub executed : ℕ
  pub prev_hash : String
  pub prev_ts : Option ParsedTime

abbrev pub start : Hashing → Progress
start h = record {
  cases = [];
  policies = [];
  reviewers = [];
  approved = 0;
  overridden = 0;
  rejected = 0;
  executed = 0;
  prev_hash = h.genesis_hash;
  prev_ts = none;
}

-- set.add
abbrev pub add : String → List String → List String
add k xs = if contains k xs then xs else k ∷ xs

abbrev pub or_empty : Option String → String
or_empty none = ""
or_empty (some s) = s

abbrev pub is_text : String → Option String → Bool
is_text s none = false
is_text s (some t) = str_eq t s

abbrev pub has_number : ℕ → Option ℕ → Bool
has_number n none = false
has_number n (some k) = k == n

abbrev pub all_present : RawEntry → Bool
all_present e =
    let p = e.payload in
    is_some p.audit_entry_id
    && (is_some p.sequence_number
        && (is_some p.timestamp
            && (is_some p.case_id
                && (is_some p.policy_id
                    && (is_some p.case_event_id
                        && (is_some p.from_state
                            && (is_some p.to_state
                                && (is_some p.prev_hash && is_some e.entry_hash))))))))

-- The comparison with the time before; a naive and an aware one do not compare.
unfoldable pub check_order : ParsedTime → Option ParsedTime → Result Violation ParsedTime
check_order malformed prev = err timestamp_invalid
check_order now none = ok now
check_order (at t) (some (at s)) = if ltb t s then err timestamp_inverted else ok (at t)
check_order (naive t) (some (naive s)) = if ltb t s then err timestamp_inverted else ok (naive t)
check_order _ (some _) = err timestamp_invalid

-- The conditions of ADR 0002 on an entry that executes.
unfoldable pub check_execution : Bool → Option RawReview → Result Violation (Unit {0})
check_execution false review = ok tt
check_execution true none = err review_missing
check_execution true (some r) = do
  refuse_if (not (reviewer_id_matches (or_empty r.reviewer_id))) reviewer_invalid
  refuse_if (not (is_text "APPROVED" r.decision || is_text "OVERRIDDEN" r.decision))
      decision_invalid

unfoldable pub check_justification : Option RawReview → Result Violation (Unit {0})
check_justification none = ok tt
check_justification (some r) =
    refuse_if
      ((is_text "OVERRIDDEN" r.decision || is_text "REJECTED" r.decision)
        && justification_missing (text_of r.justification))
      justification_required

abbrev pub one_if : Bool → ℕ
one_if true = 1
one_if false = 0

abbrev pub count_review : Option RawReview → Progress → Progress
count_review none p = p
count_review (some r) p = record p {
  approved = p.approved + one_if (is_text "APPROVED" r.decision);
  overridden = p.overridden + one_if (is_text "OVERRIDDEN" r.decision);
  rejected = p.rejected + one_if (is_text "REJECTED" r.decision);
  reviewers =
      if str_eq (or_empty r.reviewer_id) ""
      then p.reviewers
      else add (or_empty r.reviewer_id) p.reviewers;
}

unfoldable pub count_entry : RawEntry → ParsedTime → Progress → Progress
count_entry e now p =
    let x = e.payload in
    record (count_review (review_of x.human_review) p) {
      executed = p.executed + one_if (is_text "EXECUTED" x.to_state);
      cases = add (or_empty x.case_id) p.cases;
      policies = add (or_empty x.policy_id) p.policies;
      prev_hash = or_empty e.entry_hash;
      prev_ts = some now;
    }

-- The number and the required fields.
abbrev pub check_shape : ℕ → RawEntry → Result Violation (Unit {0})
check_shape index e = do
  refuse_if (not (has_number index e.payload.sequence_number)) sequence_broken
  refuse_if (not (all_present e)) field_missing

-- The hash before, and the entry's own.
abbrev pub check_chain : Hashing → RawEntry → Progress → Result Violation (Unit {0})
check_chain h e p = do
  refuse_if (not (is_text p.prev_hash e.payload.prev_hash)) chain_broken
  refuse_if (not (is_text (h.compute_sha256 (preimage h p.prev_hash e.payload)) e.entry_hash))
      hash_mismatch

-- The governance invariants.
unfoldable pub check_governance : RawPayload → Result Violation (Unit {0})
unfolding check_execution check_justification
check_governance x = do
  refuse_if (is_text "RECOMMENDED" x.from_state && is_text "EXECUTED" x.to_state)
      autonomous_execution
  check_execution (is_text "EXECUTED" x.to_state) (review_of x.human_review)
  check_justification (review_of x.human_review)

-- One pass of the loop.
unfoldable pub verify_entry : Hashing → ℕ → RawEntry → Progress → Result Violation Progress
unfolding check_order check_governance count_entry
verify_entry h index e p = do
  check_shape index e
  now ← check_order (h.parse_time (or_empty e.payload.timestamp)) p.prev_ts
  check_chain h e p
  check_governance e.payload
  ok (count_entry e now p)

-- The loop; a violation comes with the sequence number of its entry.
unfoldable pub verify_from :
    Hashing → ℕ → List RawEntry → Progress → Result (Option ℕ × Violation) Progress
unfolding verify_entry
verify_from h index [] p = ok p
verify_from h index (e ∷ es) p =
    let rest = verify_from h (suc index) es in
    elim (verify_entry h index e p) [ ok p' ↦ rest p' | err v ↦ err (e.payload.sequence_number, v) ]

-- The fields of AuditVerificationResult; the sets come as lists with no entry twice.
pub record Scorecard : Type 0 where
  pub total_entries : ℕ
  pub first_timestamp : Option String
  pub last_timestamp : Option String
  pub counts : Progress

abbrev timestamp_of : Option RawEntry → Option String
timestamp_of none = none
timestamp_of (some e) = e.payload.timestamp

abbrev head? : List RawEntry → Option RawEntry
head? [] = none
head? (e ∷ es) = some e

-- The scorecard of a log with no violation.
abbrev pub scorecard : List RawEntry → Progress → Scorecard
scorecard es counts = record {
  total_entries = length es;
  first_timestamp = timestamp_of (head? es);
  last_timestamp = timestamp_of (last? es);
  counts = counts;
}

-- verify_records
unfoldable pub verify_records : Hashing → List RawEntry → Result (Option ℕ × Violation) Scorecard
unfolding verify_from
verify_records h es = do counts ← verify_from h 0 es (start h); ok (scorecard es counts)
