-- ===== src/Rules/Invariants.antt =====
-- rules/invariants.py: the six predicates, each with its verdict, reason code and detail.
use inforsight.Common.{
  ℕ, ◌-◌, ◌/◌, String, Bool, true, false, not, ◌||◌, Option, none, some, leb, if◌then◌else◌,
  lower_is,
}
use inforsight.Common.Int.{ℤ, pos, negsuc, leℤ, ltℤ}
use inforsight.Rules.Models.{
  ReasonCode, DateTime, Detail, PolicyContext, legal_hold, active_claim, legal_dispute_freeze,
  policy_not_in_force, policy_terminated, policy_surrendered, policy_lapsed, policy_matured,
  channel_opt_out_sms, channel_opt_out_email, channel_opt_out_phone, dnc_registry,
  contact_cooling_off_active, grace_period_required, minimum_tenure_not_met,
  maximum_tenure_exceeded, under_legal_hold, claim_pending, dispute_registered, status_lapsed,
  status_surrendered, status_terminated, status_matured, status_not_viable, opted_out_sms,
  opted_out_email, opted_out_phone, on_dnc_registry, contacted_recently, not_in_grace, tenure_below,
  tenure_above,
}

-- What every predicate returns.
abbrev pub Verdict : Type 0
Verdict = Bool × Option ReasonCode × Option Detail

abbrev pub passes : Verdict
passes = (true, none, none)

-- `if value`, for an optional Boolean.
abbrev pub is_true : Option Bool → Bool
is_true none = false
is_true (some b) = b

unfoldable pub evaluate_legal_freeze : PolicyContext → Verdict
evaluate_legal_freeze c =
    if is_true c.has_legal_hold
    then (true, some legal_hold, some under_legal_hold)
    else if is_true c.has_active_claim
    then (true, some active_claim, some claim_pending)
    else if is_true c.has_registered_dispute
    then (true, some legal_dispute_freeze, some dispute_registered)
    else (false, none, none)

unfoldable pub evaluate_policy_viability : PolicyContext → Verdict
evaluate_policy_viability c =
    if lower_is c.status "active" || lower_is c.status "grace_period"
    then passes
    else if lower_is c.status "lapsed"
    then (false, some policy_lapsed, some (status_lapsed c.status))
    else if lower_is c.status "surrendered"
    then (false, some policy_surrendered, some (status_surrendered c.status))
    else if lower_is c.status "terminated"
    then (false, some policy_terminated, some (status_terminated c.status))
    else if lower_is c.status "matured"
    then (false, some policy_matured, some (status_matured c.status))
    else (false, some policy_not_in_force, some (status_not_viable c.status))

unfoldable pub evaluate_channel_consent : PolicyContext → String → Verdict
evaluate_channel_consent c channel =
    if lower_is channel "sms"
    then (if is_true c.sms_opt_out
        then (false, some channel_opt_out_sms, some opted_out_sms)
        else passes)
    else if lower_is channel "email"
    then (if is_true c.email_opt_out
        then (false, some channel_opt_out_email, some opted_out_email)
        else passes)
    else if lower_is channel "phone"
    then (if is_true c.phone_opt_out
        then (false, some channel_opt_out_phone, some opted_out_phone)
        else if is_true c.dnc_registered
        then (false, some dnc_registry, some on_dnc_registry)
        else passes)
    else passes

abbrev pub day_micros : ℕ
day_micros = 86400000000

-- (later - earlier).days, which rounds down
unfoldable pub elapsed_days : DateTime → DateTime → ℤ
elapsed_days later earlier =
    if leb earlier.instant later.instant
    then pos ((later.instant - earlier.instant) / day_micros)
    else negsuc ((earlier.instant - later.instant - 1) / day_micros)

cooling_verdict : DateTime → ℤ → Option DateTime → Verdict
cooling_verdict as_of cooling_off_days none = passes
cooling_verdict as_of cooling_off_days (some last) =
    let elapsed = elapsed_days as_of last in
    if ltℤ elapsed cooling_off_days
    then (
      false,
      some contact_cooling_off_active,
      some (contacted_recently elapsed cooling_off_days),
    )
    else passes

unfoldable pub evaluate_contact_cooling_off : PolicyContext → ℤ → Verdict
unfolding cooling_verdict
evaluate_contact_cooling_off c cooling_off_days =
    if leℤ cooling_off_days (pos 0)
    then passes
    else cooling_verdict c.as_of cooling_off_days c.last_contact_date

unfoldable pub evaluate_grace_period : PolicyContext → Bool → Verdict
evaluate_grace_period c requires_grace =
    if not requires_grace
    then passes
    else if not (c.in_grace_period || lower_is c.status "grace_period")
    then (false, some grace_period_required, some not_in_grace)
    else passes

maximum_verdict : ℤ → Option ℤ → Verdict
maximum_verdict tenure none = passes
maximum_verdict tenure (some max_days) =
    if ltℤ max_days tenure
    then (false, some maximum_tenure_exceeded, some (tenure_above tenure max_days))
    else passes

unfoldable pub evaluate_tenure_bounds : PolicyContext → ℤ → Option ℤ → Verdict
unfolding maximum_verdict
evaluate_tenure_bounds c min_days max_days =
    if ltℤ c.tenure_days min_days
    then (false, some minimum_tenure_not_met, some (tenure_below c.tenure_days min_days))
    else maximum_verdict c.tenure_days max_days
