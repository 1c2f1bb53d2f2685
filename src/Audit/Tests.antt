-- ===== src/Audit/Tests.antt =====
-- A ledger of one row, and instances of the theorems on ledgers and logs.
use mathlib.Core.List.{Memᴰ}
use inforsight.Common.{String, ◌≡◌, ◌⊎◌, refl, sym, ap, ◌∙◌, none, some, List, [], ◌∷◌}
use inforsight.Common.Result.{ok}
use inforsight.Workflow.Models.{
  human_reviewed, executed, approved, reviewer_id_matches, justification_missing,
}
use inforsight.Workflow.Service.{AuditRow, at}
use inforsight.Audit.Entries.{RawEntry, Hashing, to_dict}
use inforsight.Audit.Ledger.{Ledger, appended, append, new_ledger, new_record, keep}
use inforsight.Audit.Verifier.{
  Progress, scorecard, start, check_order, check_execution, check_justification, check_governance,
  count_entry, verify_entry, verify_from, verify_records,
}
use inforsight.Audit.Chain.{Collision, verify_records-same}
use inforsight.Audit.Governance.{IsGoverned, verify_records-IsGoverned}
use inforsight.Audit.Built.{MayFollow, opened, extended, log_of, verify_records-Grown}

-- A digest that is the text itself, and a JSON text that is the name of the entry.
abbrev plain : Hashing
plain = record {
  compute_sha256 = λ s. s;
  canonical_json_dumps = λ x. elim x.audit_entry_id [ none ↦ "" | some i ↦ i ];
  content_text = λ r. "{}";
  parse_time = λ t. at 5;
  genesis_hash = "genesis";
}

abbrev execution_row : AuditRow
execution_row = record {
  case_id = "case_1";
  policy_id = "pol_1";
  case_event_id = "evt_6";
  from_state = human_reviewed;
  to_state = executed;
  decision_context_digest = "digest";
  human_review = some (record {
    reviewer_id = "usr_anna";
    reviewed_at = "t2";
    decision = approved;
    rationale_code = "FIT";
    justification = none;
  });
  dispatched_action = none;
  approval_binding = none;
  timestamp = "t3";
}

abbrev one_row : Ledger
one_row = (append plain appended "aud_1" execution_row (new_ledger plain)).1

follows : MayFollow plain (start plain) (new_ledger plain) "aud_1" execution_row
unfolding check_order check_governance check_execution check_justification reviewer_id_matches
    justification_missing
follows = record { now = at 5; in_order = refl; governed = refl }

verify_records-Grown_example :
    let p =
      count_entry
        (to_dict plain (new_record plain "aud_1" execution_row (new_ledger plain)))
        (at 5)
        (start plain) in
    (verify_records plain (log_of plain one_row.records)
      ≡ ok (scorecard (log_of plain one_row.records) p))
    × (p.prev_hash ≡ one_row.current_hash)
unfolding follows
verify_records-Grown_example =
    verify_records-Grown plain one_row
      (count_entry (to_dict plain (new_record plain "aud_1" execution_row (new_ledger plain)))
        (at 5) (start plain))
      (extended (new_ledger plain) (start plain) "aud_1" execution_row opened follows)

abbrev one_log : List RawEntry
one_log = log_of plain one_row.records

abbrev one_count : Progress
one_count =
    count_entry (to_dict plain (new_record plain "aud_1" execution_row (new_ledger plain))) (at 5)
      (start plain)

verified : verify_records plain one_log ≡ ok (scorecard one_log one_count)
unfolding follows
verified =
    (verify_records-Grown plain one_row one_count
      (extended (new_ledger plain) (start plain) "aud_1" execution_row opened follows)).0

-- A digest that is the same for every text: two logs that differ have one tip hash.
abbrev coarse : Hashing
coarse = record plain { compute_sha256 = λ s. "genesis" }

abbrev entry_of : String → RawEntry
entry_of i = to_dict coarse (new_record coarse i execution_row (new_ledger coarse))

abbrev count_of : String → Progress
count_of i = count_entry (entry_of i) (at 5) (start coarse)

abbrev log_with : String → List RawEntry
log_with i = entry_of i ∷ []

checks :
    (i : String) → verify_records coarse (log_with i) ≡ ok (scorecard (log_with i) (count_of i))
unfolding verify_records verify_from verify_entry check_order check_governance check_execution
    check_justification count_entry new_record reviewer_id_matches justification_missing
checks i = refl

-- The JSON text has the name of the entry, in which alone the entries of the two logs can differ.
json_name :
    (e f : RawEntry)
    → Memᴰ e (log_with "aud_1")
    → Memᴰ f (log_with "aud_2")
    → coarse.canonical_json_dumps e.payload ≡ coarse.canonical_json_dumps f.payload
    → e.payload ≡ f.payload
unfolding new_record
json_name e f (Memᴰ.head p) (Memᴰ.head q) h =
    let first = ap (λ (z : RawEntry). coarse.canonical_json_dumps z.payload) p in
    let second = ap (λ (z : RawEntry). coarse.canonical_json_dumps z.payload) q in
    let same : ◌≡◌ {A = String} "aud_1" "aud_2" = sym first ∙ h ∙ second in
    ap (λ (z : RawEntry). z.payload) (p ∙ ap entry_of same ∙ sym q)
json_name e f (Memᴰ.tail k) (Memᴰ.head q) h = elim k [ ]
json_name e f m (Memᴰ.tail k) h = elim k [ ]

verify_records-same_example : (log_with "aud_1" ≡ log_with "aud_2") ⊎ Collision coarse
unfolding count_entry new_record
verify_records-same_example =
    verify_records-same coarse (λ s. refl) (log_with "aud_1") (log_with "aud_2")
      (scorecard (log_with "aud_1") (count_of "aud_1"))
      (scorecard (log_with "aud_2") (count_of "aud_2")) json_name (checks "aud_1") (checks "aud_2")
      refl refl

verify_records-IsGoverned_example :
    IsGoverned (to_dict plain (new_record plain "aud_1" execution_row (new_ledger plain))).payload
unfolding append keep new_record
verify_records-IsGoverned_example =
    verify_records-IsGoverned plain one_log (scorecard one_log one_count) verified
      (to_dict plain (new_record plain "aud_1" execution_row (new_ledger plain))) (Memᴰ.head refl)
