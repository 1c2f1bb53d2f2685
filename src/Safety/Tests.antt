-- ===== src/Safety/Tests.antt =====
-- safety_evidence.py: a hold that is recorded and then corrected.
use inforsight.Common.{
  ℕ, String, true, false, ◌≡◌, refl, Option, some, List, [], ◌∷◌, length, codes,
}
use inforsight.Common.Dict.{get, put}
use inforsight.Common.Order.{text_le, lex_le}
use inforsight.Common.Sort.{sort, insert}
use inforsight.Common.Result.{ok}
use inforsight.Timeline.Events.{without_z}
use inforsight.Safety.Evidence.{
  Payload, facts_of, correction, SafetyEvent, is_safety_field, parse_time, prepare, prepared_le,
  has_repeats, Facts, all_bools, checked_updates, correction_updates, updates_of, contradicts,
  apply_updates, replay_event, replay_all, reconstruct_safety_evidence,
}
use inforsight.Safety.Updates.{Says}
use inforsight.Safety.Supported.{IsShown, reconstruct_safety_evidence-IsSupported}

-- Instants are written as so many marks.
abbrev tally : String → Option ℕ
tally t = some (length (codes t))

abbrev event : String → String → String → Payload → SafetyEvent
event id type when payload = record {
  schema_version = "1.0.0";
  event_id = id;
  policy_id = "pol_1";
  event_type = type;
  effective_at = when;
  ingested_at = when;
  payload = payload;
}

-- The correction arrives first, and an opt-out comes after the cutoff.
abbrev history : List SafetyEvent
history =
    event "s2" "safety.facts_corrected" "||Z"
      (correction "s1" (some (("has_legal_hold", some false) ∷ [])))
    ∷ event "s1" "safety.facts_recorded" "|Z" (facts_of (("has_legal_hold", some true) ∷ []))
    ∷ event "s3" "safety.facts_recorded" "||||Z" (facts_of (("sms_opt_out", some true) ∷ []))
    ∷ []

abbrev replayed : Facts
replayed = record {
  facts = ("has_legal_hold", false) ∷ [];
  evidence = ("has_legal_hold", "s2") ∷ [];
  recorded = ("s1", ("has_legal_hold", true) ∷ []) ∷ [];
  instants = ((2, "has_legal_hold"), false) ∷ ((1, "has_legal_hold"), true) ∷ [];
}

replayed_run :
    reconstruct_safety_evidence tally history "pol_1" "|||Z" "snap_1"
      "fictional-safety-events/1.0.0"
    ≡ ok replayed
unfolding reconstruct_safety_evidence parse_time without_z prepare prepared_le text_le lex_le sort
    insert has_repeats replay_all replay_event updates_of checked_updates all_bools is_safety_field
    correction_updates get put apply_updates contradicts
replayed_run = refl

no_hold : get "has_legal_hold" replayed.facts ≡ some false
unfolding get
no_hold = refl

reconstruct_safety_evidence-IsSupported_example :
    (cutoff : ℕ) × (parse_time tally "|||Z" ≡ ok cutoff)
    × ((e : SafetyEvent) × IsShown tally "pol_1" cutoff history e
        × Says "has_legal_hold" false e.payload
        × (get "has_legal_hold" replayed.evidence ≡ some e.event_id))
reconstruct_safety_evidence-IsSupported_example =
    reconstruct_safety_evidence-IsSupported tally history "pol_1" "|||Z" "snap_1"
      "fictional-safety-events/1.0.0" replayed "has_legal_hold" false replayed_run no_hold
