-- ===== src/Safety/Evidence.antt =====
-- safety_evidence.py: reconstruct_safety_evidence. Events are records with a payload of one of three
-- shapes; datetime.fromisoformat is a parameter, and the digest that names the evidence is left out.
use inforsight.Common.{
  ℕ, String, Bool, true, false, not, ◌&&◌, ◌||◌, Option, none, some, List, [], ◌∷◌, any, ltb, ◌==◌,
  str_eq, if◌then◌else◌,
}
use inforsight.Common.Dict.{Dict, get, put}
use inforsight.Common.Order.{text_le}
use inforsight.Common.Sort.{sort}
use inforsight.Common.Result.{Result, ok, err, ◌>>=◌, ◌>>◌, refuse_if}
use inforsight.Timeline.Events.{without_z}

-- A value is `none` where it is not a bool; a replacement is `none` where it is not a mapping.
pub data Payload : Type 0 where
  not_mapping : Payload
  facts_of : Dict (Option Bool) → Payload
  correction : String → Option (Dict (Option Bool)) → Payload

pub record SafetyEvent : Type 0 where
  pub schema_version : String
  pub event_id : String
  pub policy_id : String
  pub event_type : String
  pub effective_at : String
  pub ingested_at : String
  pub payload : Payload

-- The codes of SafetyEvidenceError.
pub data SafetyError : Type 0 where
  incompatible_contract invalid_envelope duplicate_event invalid_payload invalid_correction
        unsupported_event contradictory :
      SafetyError

-- field in SAFETY_FIELDS
unfoldable pub is_safety_field : String → Bool
is_safety_field f =
    str_eq f "has_active_claim"
    || str_eq f "has_legal_hold"
    || str_eq f "has_registered_dispute"
    || str_eq f "sms_opt_out"
    || str_eq f "email_opt_out"
    || str_eq f "phone_opt_out"
    || str_eq f "dnc_registered"

-- _parse_time
unfoldable pub parse_time : (String → Option ℕ) → String → Result SafetyError ℕ
unfolding without_z
parse_time instant_of value = elim (without_z value) [
  | none ↦ err invalid_envelope
  | some text ↦ elim (instant_of text) [ none ↦ err invalid_envelope | some t ↦ ok t ]
]

-- An item of `prepared`.
pub record Prepared : Type 0 where
  pub effective : ℕ
  pub event : SafetyEvent

abbrev pub is_visible : ℕ → ℕ → ℕ → Bool
is_visible cutoff effective ingested = not (ltb cutoff effective) && not (ltb cutoff ingested)

-- The first loop.
unfoldable pub prepare :
    (String → Option ℕ) → String → ℕ → List SafetyEvent → Result SafetyError (List Prepared)
unfolding parse_time
prepare instant_of policy_id cutoff [] = ok []
prepare instant_of policy_id cutoff (raw ∷ history) =
    refuse_if (str_eq raw.event_id "") invalid_envelope
    >> (refuse_if (not (str_eq raw.schema_version "1.0.0") || not (str_eq raw.policy_id policy_id))
          invalid_envelope
        >> (parse_time instant_of raw.effective_at >>= λ effective.
            parse_time instant_of raw.ingested_at >>= λ ingested.
            prepare instant_of policy_id cutoff history >>= λ rest. ok (
              if is_visible cutoff effective ingested
              then record { effective = effective; event = raw } ∷ rest
              else rest)))

-- key=lambda item: (item[0], item[1])
unfoldable pub prepared_le : Prepared → Prepared → Bool
unfolding text_le
prepared_le a b =
    if ltb a.effective b.effective
    then true
    else if ltb b.effective a.effective
    then false
    else text_le a.event.event_id b.event.event_id

-- Two items have one event id.
unfoldable pub has_repeats : List Prepared → Bool
has_repeats [] = false
has_repeats (p ∷ items) =
    any (λ q. str_eq p.event.event_id q.event.event_id) items || has_repeats items

abbrev pub Instants : Type 0
Instants = List ((ℕ × String) × Bool)

-- The variables of the second loop; a fact that no update has written is None.
pub record Facts : Type 0 where
  pub facts : Dict Bool
  pub evidence : Dict String
  pub recorded : Dict (Dict Bool)
  pub instants : Instants

abbrev pub no_facts : Facts
no_facts = record { facts = []; evidence = []; recorded = []; instants = [] }

-- The mapping, if all its values are bools.
unfoldable pub all_bools : Dict (Option Bool) → Option (Dict Bool)
all_bools [] = some []
all_bools ((f, none) ∷ payload) = none
all_bools ((f, some v) ∷ payload) = elim (all_bools payload) [
  | none ↦ none
  | some rest ↦ some ((f, v) ∷ rest)
]

-- set(updates).issubset(...), by a test on the fields
abbrev pub fields_in : (String → Bool) → Dict Bool → Bool
fields_in test [] = true
fields_in test ((f, v) ∷ updates) = test f && fields_in test updates

abbrev pub is_empty : Dict Bool → Bool
is_empty [] = true
is_empty (_ ∷ _) = false

-- A mapping of bools that is not empty and has permitted fields only.
unfoldable pub checked_updates :
    (String → Bool) → SafetyError → Dict (Option Bool) → Result SafetyError (Dict Bool)
unfolding all_bools
checked_updates test e payload = elim (all_bools payload) [
  | none ↦ err e
  | some updates ↦ if is_empty updates || not (fields_in test updates) then err e else ok updates
]

abbrev pub has_field : Dict Bool → String → Bool
unfolding get
has_field d f = elim (get f d) [ none ↦ false | some _ ↦ true ]

-- The updates of a correction, against the facts of the event that it corrects.
unfoldable pub correction_updates :
    Option (Dict Bool) → Option (Dict (Option Bool)) → Result SafetyError (Dict Bool)
unfolding checked_updates has_field
correction_updates none replacement = err invalid_correction
correction_updates (some target) none = err invalid_correction
correction_updates (some target) (some replacement) =
    checked_updates (has_field target) invalid_correction replacement

-- The updates of an event of a type and an id, and the recorded facts after it.
unfoldable pub updates_of :
    Facts → String → String → Payload → Result SafetyError (Dict Bool × Dict (Dict Bool))
unfolding checked_updates correction_updates is_safety_field get put
updates_of s kind id not_mapping = err invalid_payload
updates_of s kind id (facts_of payload) =
    if str_eq kind "safety.facts_recorded"
    then (checked_updates is_safety_field invalid_payload payload >>= λ updates.
        ok (updates, put id updates s.recorded))
    else if str_eq kind "safety.facts_corrected"
    then err invalid_correction
    else err unsupported_event
updates_of s kind id (correction target replacement) =
    if str_eq kind "safety.facts_recorded"
    then err invalid_payload
    else if str_eq kind "safety.facts_corrected"
    then (correction_updates (get target s.recorded) replacement >>= λ updates.
        ok (updates, s.recorded))
    else err unsupported_event

abbrev pub same_bool : Bool → Bool → Bool
same_bool true b = b
same_bool false b = not b

-- key in instants and instants[key] != value
unfoldable pub contradicts : ℕ → String → Bool → Instants → Bool
contradicts t f v [] = false
contradicts t f v (((u, g), w) ∷ instants) =
    (t == u && (str_eq f g && not (same_bool v w))) || contradicts t f v instants

-- The loop over `updates.items()`.
unfoldable pub apply_updates : ℕ → String → Dict Bool → Facts → Result SafetyError Facts
unfolding contradicts put
apply_updates t id [] s = ok s
apply_updates t id ((f, v) ∷ updates) s =
    refuse_if (contradicts t f v s.instants) contradictory
    >> apply_updates t id updates (record s {
      facts = put f v s.facts;
      evidence = put f id s.evidence;
      instants = ((t, f), v) ∷ s.instants;
    })

-- One round of the second loop, and the loop.
unfoldable pub replay_event : Facts → Prepared → Result SafetyError Facts
unfolding updates_of apply_updates
replay_event s p = updates_of s p.event.event_type p.event.event_id p.event.payload >>= λ found.
    apply_updates p.effective p.event.event_id found.0 (record s { recorded = found.1 })

unfoldable pub replay_all : Facts → List Prepared → Result SafetyError Facts
unfolding replay_event
replay_all s [] = ok s
replay_all s (p ∷ items) = replay_event s p >>= λ next. replay_all next items

-- reconstruct_safety_evidence, up to the digest
unfoldable pub reconstruct_safety_evidence :
    (String → Option ℕ)
    → List SafetyEvent
    → String
    → String
    → String
    → String
    → Result SafetyError Facts
unfolding prepare prepared_le has_repeats replay_all parse_time
reconstruct_safety_evidence instant_of history policy_id as_of snapshot_id source_profile =
    refuse_if
      (not (str_eq source_profile "fictional-safety-events/1.0.0")
        || str_eq policy_id ""
        || str_eq snapshot_id "")
      incompatible_contract
    >> (parse_time instant_of as_of >>= λ cutoff.
        prepare instant_of policy_id cutoff history >>= λ prepared.
        (refuse_if (has_repeats prepared) duplicate_event
          >> replay_all no_facts (sort prepared_le prepared)))
