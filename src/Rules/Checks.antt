-- ===== src/Rules/Checks.antt =====
-- What the four invariants of one action decide, as conditions on the context (rules/invariants.py
-- and the third loop of rules/engine.py).
use inforsight.Common.{
  String, Bool, true, false, ◌≡◌, ◌↔◌, ◌&&◌, ◌||◌, refl, Option, none, some, List, [], ◌∷◌, All,
  any, lower_is, arith, Option-cases, inl, inr, lower_is-other,
}
use inforsight.Common.Int.{ℤ, pos, ◌≤ℤ◌, ◌<ℤ◌}
use inforsight.Rules.Models.{
  ReasonCode, DateTime, Detail, PolicyContext, SafetyField, ConservationActionDefinition,
}
use inforsight.Rules.Invariants.{
  Verdict, is_true, evaluate_channel_consent, evaluate_contact_cooling_off, evaluate_grace_period,
  evaluate_tenure_bounds, elapsed_days,
}
use inforsight.Rules.Engine.{
  is_none, safety_fact, is_channel_field, missing_channel_evidence, channel_verdict, collect,
  disqualifications,
}

-- The evidence on consent that the action names is present.
abbrev pub ConsentIsKnown : PolicyContext → ConservationActionDefinition → Type 0
ConsentIsKnown c a =
    All (λ f. is_channel_field f ≡ true → is_none (safety_fact c f) ≡ false)
      a.required_safety_evidence

-- No opt-out stands against the channel.
pub record ConsentGiven (c : PolicyContext) (channel : String) : Type 0 where
  pub sms : lower_is channel "sms" ≡ true → is_true c.sms_opt_out ≡ false
  pub email : lower_is channel "email" ≡ true → is_true c.email_opt_out ≡ false
  pub phone : lower_is channel "phone" ≡ true → is_true c.phone_opt_out ≡ false
  pub registry : lower_is channel "phone" ≡ true → is_true c.dnc_registered ≡ false

-- The conditions under which an intervention may be offered to a policy that is not frozen.
pub record Permits (c : PolicyContext) (a : ConservationActionDefinition) : Type 0 where
  pub known : ConsentIsKnown c a
  pub consent : ConsentGiven c a.channel
  pub cooled :
      (last : DateTime)
      → c.last_contact_date ≡ some last
      → pos 0 <ℤ a.regulatory_cooling_off_days
      → a.regulatory_cooling_off_days ≤ℤ elapsed_days c.as_of last
  pub grace :
      a.requires_grace_period ≡ true
      → (c.in_grace_period || lower_is c.status "grace_period") ≡ true
  pub old_enough : a.minimum_policy_tenure_days ≤ℤ c.tenure_days
  pub young_enough : (m : ℤ) → a.maximum_policy_tenure_days ≡ some m → c.tenure_days ≤ℤ m

-- A verdict that fails names its reason.
abbrev pub NamesReason : Verdict → Type 0
NamesReason (true, _, _) = Unit
NamesReason (false, none, _) = ⊥
NamesReason (false, some _, _) = Unit

known_lem :
    (c : PolicyContext) (fs : List SafetyField)
    → (any (λ f. is_channel_field f && is_none (safety_fact c f)) fs ≡ false)
      ↔ All (λ f. is_channel_field f ≡ true → is_none (safety_fact c f) ≡ false) fs
known_lem c [] = (λ _. tt, λ _. refl)
known_lem c (f ∷ fs) = ground (arith, known_lem c fs)

channel-consent :
    (c : PolicyContext) (channel : String)
    → ((evaluate_channel_consent c channel).0 ≡ true) ↔ ConsentGiven c channel
unfolding evaluate_channel_consent
channel-consent c channel = ground (
  arith,
  lower_is-other channel "sms" "email",
  lower_is-other channel "sms" "phone",
  lower_is-other channel "email" "phone",
)

channel-NamesReason :
    (c : PolicyContext) (a : ConservationActionDefinition) → NamesReason (channel_verdict c a)
unfolding channel_verdict evaluate_channel_consent
channel-NamesReason c a = ground arith

cooling-NamesReason : (c : PolicyContext) (n : ℤ) → NamesReason (evaluate_contact_cooling_off c n)
unfolding evaluate_contact_cooling_off
cooling-NamesReason c n = ground arith

grace-NamesReason : (c : PolicyContext) (b : Bool) → NamesReason (evaluate_grace_period c b)
unfolding evaluate_grace_period
grace-NamesReason c b = ground arith

tenure-NamesReason :
    (c : PolicyContext) (m : ℤ) (n : Option ℤ) → NamesReason (evaluate_tenure_bounds c m n)
unfolding evaluate_tenure_bounds
tenure-NamesReason c m n = ground arith

-- An invariant adds no reason exactly if it passes.
collect-empty :
    (v : Verdict) (found : List ReasonCode × List Detail)
    → NamesReason v
    → ((collect v found).0 ≡ []) ↔ ((v.0 ≡ true) × (found.0 ≡ []))
unfolding collect
collect-empty (true, _, _) found n = ground arith
collect-empty (false, none, _) found n = absurd n
collect-empty (false, some r, none) ([], ds) n = ground arith
collect-empty (false, some r, none) (x ∷ rs, ds) n = ground arith
collect-empty (false, some r, some d) ([], ds) n = ground arith
collect-empty (false, some r, some d) (x ∷ rs, ds) n = ground arith

cooling_passes :
    (c : PolicyContext) (n : ℤ)
    → ((evaluate_contact_cooling_off c n).0 ≡ true) ↔ (
        (last : DateTime)
        → c.last_contact_date ≡ some last
        → pos 0 <ℤ n
        → n ≤ℤ elapsed_days c.as_of last)
unfolding evaluate_contact_cooling_off
cooling_passes c n = elim (Option-cases c.last_contact_date) [
  | inl e ↦ (λ h last e' p. cc, λ h. ground arith)
  | inr (d, e) ↦ (λ h last e' p. ground arith, λ h. ground (arith, h d))
]

grace_passes :
    (c : PolicyContext) (b : Bool)
    → ((evaluate_grace_period c b).0 ≡ true)
      ↔ (b ≡ true → (c.in_grace_period || lower_is c.status "grace_period") ≡ true)
unfolding evaluate_grace_period
grace_passes c b = ground arith

tenure_passes :
    (c : PolicyContext) (m : ℤ) (n : Option ℤ)
    → ((evaluate_tenure_bounds c m n).0 ≡ true)
      ↔ ((m ≤ℤ c.tenure_days) × ((k : ℤ) → n ≡ some k → c.tenure_days ≤ℤ k))
unfolding evaluate_tenure_bounds
tenure_passes c m none = (λ h. (ground arith, λ k e. cc), λ h. ground arith)
tenure_passes c m (some k) =
    (λ h. (ground arith, λ k' e. ground arith), λ h. ground (arith, h.1 k refl))

channel_passes :
    (c : PolicyContext) (a : ConservationActionDefinition)
    → ((channel_verdict c a).0 ≡ true) ↔ (ConsentIsKnown c a × ConsentGiven c a.channel)
unfolding channel_verdict missing_channel_evidence
channel_passes c a =
    ground (arith, known_lem c a.required_safety_evidence, channel-consent c a.channel)

module _ (c : PolicyContext) (a : ConservationActionDefinition) where
  abbrev channel : Verdict
  channel = channel_verdict c a

  abbrev cooling : Verdict
  cooling = evaluate_contact_cooling_off c a.regulatory_cooling_off_days

  abbrev grace : Verdict
  grace = evaluate_grace_period c a.requires_grace_period

  abbrev tenure : Verdict
  tenure = evaluate_tenure_bounds c a.minimum_policy_tenure_days a.maximum_policy_tenure_days

  all_pass :
      ((disqualifications c a).0 ≡ [])
      ↔ ((tenure.0 ≡ true) × (grace.0 ≡ true) × (cooling.0 ≡ true) × (channel.0 ≡ true))
  unfolding disqualifications
  all_pass =
      let one = collect channel ([], []) in
      let two = collect cooling one in
      let three = collect grace two in
      let e1 = collect-empty channel ([], []) (channel-NamesReason c a) in
      let e2 = collect-empty cooling one (cooling-NamesReason c _) in
      let e3 = collect-empty grace two (grace-NamesReason c _) in
      let e4 = collect-empty tenure three (tenure-NamesReason c _ _) in
      (
        (λ h.
            let h4 = e4.0 h in
            let h3 = e3.0 h4.1 in let h2 = e2.0 h3.1 in (h4.0, h3.0, h2.0, (e1.0 h2.1).0)),
        (λ h. e4.1 (h.0, e3.1 (h.1, e2.1 (h.2, e1.1 (h.3, refl))))),
      )

  -- The loop finds no reason against an action exactly if the action is permitted.
  pub disqualifications-empty : ((disqualifications c a).0 ≡ []) ↔ Permits c a
  disqualifications-empty =
      let ch = channel_passes c a in
      let co = cooling_passes c a.regulatory_cooling_off_days in
      let gr = grace_passes c a.requires_grace_period in
      let te = tenure_passes c a.minimum_policy_tenure_days a.maximum_policy_tenure_days in
      (
        (λ h.
            let p = all_pass.0 h in
            record {
              known = (ch.0 p.3).0;
              consent = (ch.0 p.3).1;
              cooled = co.0 p.2;
              grace = gr.0 p.1;
              old_enough = (te.0 p.0).0;
              young_enough = (te.0 p.0).1;
            }),
        (λ p. all_pass.1 (
          te.1 (p.old_enough, p.young_enough),
          gr.1 p.grace,
          co.1 p.cooled,
          ch.1 (p.known, p.consent),
        )),
      )
