-- ===== src/Workflow/Models.antt =====
-- workflow/models.py: states, reviews, actors, events and the errors. Times are the texts that the
-- source keeps. `none_yet` is NONE.
use inforsight.Common.{
  ℕ, String, Bool, true, false, not, ◌&&◌, ◌||◌, Option, none, some, List, [], ◌∷◌, ltb, leb, ◌==◌,
  length, contains, str_eq, if◌then◌else◌, codes, all_codes, strip,
}
use inforsight.Common.Dict.{Dict}
use inforsight.Common.Result.{Result, ok, ◌>>◌, refuse_if}

pub data CaseState : Type 0 where
  none_yet created triaged evidence_assembled recommended human_reviewed : CaseState
  executed dismissed resolved : CaseState

pub data SpecialistReviewAction : Type 0 where
  approve_recommendation override_action request_more_info reject_and_close : SpecialistReviewAction

pub data ReviewDecision : Type 0 where
  approved overridden rejected : ReviewDecision

-- The codes of AuthorityBoundaryError.
pub data AuthorityCode : Type 0 where
  actor_untrusted actor_unauthorized time_invalid evidence_unbound resource_unbound : AuthorityCode
  channel_unbound idempotency_conflict approval_missing approval_mismatch : AuthorityCode
  actor_mismatch approval_expired case_version_stale evidence_stale : AuthorityCode
  eligibility_stale capacity_exhausted stale_allocation metadata_override : AuthorityCode
  capacity_version_conflict capacity_exceeded : AuthorityCode

-- The exceptions that the workflow raises or lets through.
pub data WorkflowError : Type 0 where
  invalid_transition unauthorized_execution ineligible_override : WorkflowError
  invalid_reviewer_credentials missing_justification case_not_found : WorkflowError
  no_event_yet timestamp_malformed audit_failed store_failed : WorkflowError
  authority : AuthorityCode → WorkflowError

-- A text without the newline that `$` of a regular expression lets stand at the end.
drop_final_newline : List ℕ → List ℕ
drop_final_newline [] = []
drop_final_newline (c ∷ []) = if c == 10 then [] else c ∷ []
drop_final_newline (c ∷ d ∷ s) = c ∷ drop_final_newline (d ∷ s)

-- [class]{low,high}$
run_of : (ℕ → Bool) → ℕ → ℕ → List ℕ → Bool
unfolding all_codes drop_final_newline
run_of in_class low high s =
    let body = drop_final_newline s in
    leb low (length body) && leb (length body) high && all_codes in_class body

after_prefix : List ℕ → List ℕ → Option (List ℕ)
after_prefix [] s = some s
after_prefix (p ∷ ps) [] = none
after_prefix (p ∷ ps) (c ∷ s) = if p == c then after_prefix ps s else none

is_digit : ℕ → Bool
is_digit c = leb b'0' c && leb c b'9'

is_lower : ℕ → Bool
is_lower c = leb b'a' c && leb c b'z'

is_upper : ℕ → Bool
is_upper c = leb b'A' c && leb c b'Z'

-- ^usr_[a-z0-9_]{3,32}$
unfoldable pub reviewer_id_matches : String → Bool
unfolding run_of after_prefix is_digit is_lower
reviewer_id_matches s = elim (after_prefix (codes "usr_") (codes s)) [
  | none ↦ false
  | some body ↦ run_of (λ c. is_lower c || is_digit c || (c == b'_')) 3 32 body
]

-- ^[A-Z0-9_]{3,64}$
unfoldable pub rationale_code_matches : String → Bool
unfolding run_of is_digit is_upper
rationale_code_matches s = run_of (λ c. is_upper c || is_digit c || (c == b'_')) 3 64 (codes s)

pub record TrustedActorContext : Type 0 where
  pub actor_id : String
  pub authenticated : Bool
  pub roles : List String
  pub trust_source : String

-- TrustedActorContext.__post_init__
unfoldable pub trusted_actor : TrustedActorContext → Result WorkflowError TrustedActorContext
trusted_actor a = do
  refuse_if (not a.authenticated) (authority actor_untrusted)
  refuse_if (not (reviewer_id_matches a.actor_id)) invalid_reviewer_credentials
  refuse_if (not (contains "conservation_specialist" a.roles)) (authority actor_unauthorized)
  refuse_if (str_eq a.trust_source "") (authority actor_untrusted)
  ok a

-- LocalTrustedActorAdapter.attest
unfoldable pub attest : String → Result WorkflowError TrustedActorContext
unfolding trusted_actor
attest actor_id = trusted_actor (record {
  actor_id = actor_id;
  authenticated = true;
  roles = "conservation_specialist" ∷ [];
  trust_source = "local_streamlit_session";
})

pub record ApprovalBinding : Type 0 where
  pub approval_id : String
  pub case_id : String
  pub case_version : ℕ
  pub snapshot_id : String
  pub safety_evidence_id : String
  pub eligibility_digest : String
  pub requirements_version : String
  pub action_type : String
  pub channel : String
  pub recommendation_version : String
  pub model_bundle_id : String
  pub actor_id : String
  pub reviewed_at : String
  pub expires_at : String
  pub idempotency_key : String

-- The exact amounts of ActionResourceRequirement, which `__post_init__` makes of the float ones.
pub record ActionResourceRequirement : Type 0 where
  pub personnel_seconds : ℕ
  pub direct_cost_usd_micros : ℕ

-- ActionResourceRequirement()
abbrev pub no_resources : ActionResourceRequirement
no_resources = record { personnel_seconds = 0; direct_cost_usd_micros = 0 }

pub record HumanReview : Type 0 where
  pub reviewer_id : String
  pub reviewed_at : String
  pub decision : ReviewDecision
  pub rationale_code : String
  pub justification : Option String

abbrev pub needs_justification : ReviewDecision → Bool
needs_justification approved = false
needs_justification overridden = true
needs_justification rejected = true

-- not justification or len(justification.strip()) < 5
unfoldable pub justification_missing : Option String → Bool
justification_missing none = true
justification_missing (some j) = ltb (length (strip (codes j))) 5

-- HumanReview.__post_init__
unfoldable pub human_review : HumanReview → Result WorkflowError HumanReview
human_review r = do
  refuse_if (not (reviewer_id_matches r.reviewer_id)) invalid_reviewer_credentials
  refuse_if (not (rationale_code_matches r.rationale_code)) missing_justification
  refuse_if (needs_justification r.decision && justification_missing r.justification)
      missing_justification
  ok r

-- The payload dictionaries that the workflow writes, by their shape; other texts are opaque.
pub data Payload : Type 0 where
  as_of_payload : String → Payload
  scoring_payload : String → Payload
  evidence_payload : String → Payload
  recommendation_payload : String → List String → Payload
  review_payload : HumanReview → Payload
  execution_payload : HumanReview → Dict String → Payload
  abstain_payload : HumanReview → Payload
  dismissal_payload : String → Option HumanReview → Payload
  resolution_payload : String → Payload

pub record CaseEvent : Type 0 where
  pub case_event_id : String
  pub case_id : String
  pub policy_id : String
  pub from_state : CaseState
  pub to_state : CaseState
  pub occurred_at : String
  pub payload : Payload
