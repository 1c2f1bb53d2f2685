-- ===== src/Rules/Mapping.antt =====
-- What the engine answers for a raw mapping (rules/engine.py, rules/models.py).
use mathlib.Core.List.{Memᴰ}
use mathlib.Core.Path.{subst}
use inforsight.Common.{
  String, Bool, true, false, not, ◌≡◌, ◌≢◌, ◌↔◌, ◌⊎◌, ◌≤◌, refl, sym, ap, ◌∙◌, Option, some, [],
  ◌∷◌, contains, str_eq, eq_iff, ltb, arith, inl, inr, if◌then◌else◌,
}
use inforsight.Common.Int.{pos, ◌≤ℤ◌, ltℤ}
use inforsight.Common.Result.{Result, ok, err, into, chained, passed}
use inforsight.Rules.Models.{
  ContextError, empty_policy_id, as_of_not_utc, negative_tenure_days, negative_days_past_due,
  last_contact_not_utc, last_contact_in_future, DateTime, PyValue, py_none, py_bool, py_int,
  py_text, py_datetime, py_other, PolicyContext, ConservationActionDefinition, EligibleActionSet,
}
use inforsight.Rules.Context.{
  ContextMapping, Parsers, Arguments, ReadContext, truth, arguments, from_dict, post_init, not_utc,
  negative_option, datetime_value, check_last_contact, text_or_empty, Flags, read_flags,
  with_contact,
}
use inforsight.Rules.Invariants.{evaluate_legal_freeze}
use inforsight.Rules.Engine.{
  Catalog, EvaluationError, status_without_lower, global_safety_missing, evaluate, reads_status,
  evaluate_context, evaluate_read, evaluate_mapping, build_fail_closed_error_set,
}
use inforsight.Rules.Checks.{Permits}
use inforsight.Rules.Eligibility.{IsOpen, evaluate-offers}

-- What the validation of a context guarantees.
pub record IsWellFormed (p : Parsers) (r : ReadContext) : Type 0 where
  pub identified : truth p r.1.policy_id ≡ true
  pub stated : r.1.status ≡ text_or_empty r.0
  pub utc : not_utc r.1.as_of ≡ false
  pub tenure : pos 0 ≤ℤ r.1.tenure_days
  pub contact :
      (last : DateTime) → r.1.last_contact_date ≡ some last → last.instant ≤ r.1.as_of.instant

true_if_not : (b : Bool) → not b ≡ false → b ≡ true
true_if_not b h = ground (arith, h)

check_last_contact-before :
    (as_of : DateTime) (v : PyValue) (found : Option DateTime)
    → check_last_contact as_of v ≡ ok found
    → (last : DateTime) → found ≡ some last
    → last.instant ≤ as_of.instant
unfolding check_last_contact
check_last_contact-before as_of py_none found h last e = cc
check_last_contact-before as_of (py_bool b) found h last e = cc
check_last_contact-before as_of (py_int n) found h last e = cc
check_last_contact-before as_of (py_text s) found h last e = cc
check_last_contact-before as_of (py_other n) found h last e = cc
check_last_contact-before as_of (py_datetime d) found h last e =
    let (_, h1) = passed (not_utc d) last_contact_not_utc _ h in
    let (n, h2) = passed (ltb as_of.instant d.instant) last_contact_in_future _ h1 in
    let same : d ≡ last = cc (h2, e) in
    subst (λ (z : DateTime). z.instant ≤ as_of.instant) same (ground (arith, n))

same_context : (q r : ReadContext) → ◌≡◌ {A = Result ContextError ReadContext} (ok q) (ok r) → q ≡ r
same_context q r h = cc h

with_contact-IsWellFormed :
    (p : Parsers) (a : Arguments) (as_of : DateTime) (flags : Flags) (r : ReadContext)
    → truth p a.policy_id ≡ true
    → not_utc as_of ≡ false
    → pos 0 ≤ℤ a.tenure_days
    → with_contact a as_of flags ≡ ok r
    → IsWellFormed p r
unfolding with_contact
with_contact-IsWellFormed p a as_of flags r named utc tenure h =
    let (found, before, h') = chained (check_last_contact as_of a.last_contact_date) _ h in
    subst (IsWellFormed p) (same_context _ r h') (record {
      identified = named;
      stated = refl;
      utc = utc;
      tenure = tenure;
      contact = check_last_contact-before as_of a.last_contact_date found before;
    })

post_init-IsWellFormed :
    (p : Parsers) (a : Arguments) (r : ReadContext) → post_init p a ≡ ok r → IsWellFormed p r
unfolding post_init
post_init-IsWellFormed p a r h =
    let (named, h1) = passed (not (truth p a.policy_id)) empty_policy_id _ h in
    let (as_of, _, h2) = chained (datetime_value a.as_of) _ h1 in
    let (utc, h3) = passed (not_utc as_of) as_of_not_utc _ h2 in
    let (tenure, h4) = passed (ltℤ a.tenure_days (pos 0)) negative_tenure_days _ h3 in
    let (_, h5) = passed (negative_option a.days_past_due) negative_days_past_due _ h4 in
    let (flags, _, h6) = chained (read_flags a) _ h5 in
    with_contact-IsWellFormed p a as_of flags r (true_if_not (truth p a.policy_id) named) utc
      (ground (arith, tenure)) h6

from_dict-IsWellFormed :
    (p : Parsers) (m : ContextMapping) (r : ReadContext) → from_dict p m ≡ ok r → IsWellFormed p r
unfolding from_dict
from_dict-IsWellFormed p m r = into (arguments p m) _ (λ a. post_init-IsWellFormed p a r)

raised_if :
    {A : Type 0} (b : Bool) (e : EvaluationError) (x : A)
    → ((if b then err e else ok x) ≡ err e) ↔ (b ≡ true)
raised_if true e x = (λ _. refl, λ _. refl)
raised_if false e x = (λ h. cc h, λ h. cc h)

-- No claim, no hold and no dispute, each of them confirmed.
abbrev pub IsClear : PolicyContext → Type 0
IsClear c =
    (c.has_active_claim ≡ some false)
    × (c.has_legal_hold ≡ some false)
    × (c.has_registered_dispute ≡ some false)

reads_status-IsClear : (c : PolicyContext) → (reads_status c ≡ true) ↔ IsClear c
unfolding reads_status global_safety_missing evaluate_legal_freeze
reads_status-IsClear c = ground arith

-- The value is no text.
abbrev pub IsNoText : PyValue → Type 0
IsNoText v = (s : String) → v ≢ py_text s

module _ (catalog : Catalog) (c : PolicyContext) where
  abbrev Raises : PyValue → Type 0
  Raises v = (evaluate_context catalog (v, c) ≡ err status_without_lower) ↔ (IsNoText v × IsClear c)

  untext_raised :
      (v : PyValue)
      → IsNoText v
      → evaluate_context catalog (v, c)
        ≡ (if reads_status c then err status_without_lower else ok (evaluate catalog c))
      → Raises v
  untext_raised v n h =
      let test = raised_if (reads_status c) status_without_lower (evaluate catalog c) in
      (
        (λ k. (n, (reads_status-IsClear c).0 (test.0 (sym h ∙ k)))),
        (λ (_, k). h ∙ test.1 ((reads_status-IsClear c).1 k)),
      )

  evaluate_context-Raises : (v : PyValue) → Raises v
  unfolding evaluate_context
  evaluate_context-Raises (py_text s) = (λ h. cc h, λ (n, _). absurd (n s refl))
  evaluate_context-Raises py_none = untext_raised py_none (λ s q. cc q) refl
  evaluate_context-Raises (py_bool b) = untext_raised (py_bool b) (λ s q. cc q) refl
  evaluate_context-Raises (py_int n) = untext_raised (py_int n) (λ s q. cc q) refl
  evaluate_context-Raises (py_datetime d) = untext_raised (py_datetime d) (λ s q. cc q) refl
  evaluate_context-Raises (py_other n) = untext_raised (py_other n) (λ s q. cc q) refl

  answered_if :
      (b : Bool) (e : EvaluationError) (x set : EligibleActionSet)
      → (if b then err e else ok x) ≡ ok set
      → x ≡ set
  answered_if true e x set h = cc h
  answered_if false e x set h = cc h

  -- What is answered is what the engine evaluates the context to.
  evaluate_context-answers :
      (v : PyValue) (set : EligibleActionSet)
      → evaluate_context catalog (v, c) ≡ ok set
      → evaluate catalog c ≡ set
  unfolding evaluate_context
  evaluate_context-answers (py_text s) set h = cc h
  evaluate_context-answers py_none set h = answered_if (reads_status c) _ _ set h
  evaluate_context-answers (py_bool b) set h = answered_if (reads_status c) _ _ set h
  evaluate_context-answers (py_int n) set h = answered_if (reads_status c) _ _ set h
  evaluate_context-answers (py_datetime d) set h = answered_if (reads_status c) _ _ set h
  evaluate_context-answers (py_other n) set h = answered_if (reads_status c) _ _ set h

text_or_not : (v : PyValue) → ((s : String) × (v ≡ py_text s)) ⊎ IsNoText v
text_or_not (py_text s) = inl (s, refl)
text_or_not py_none = inr (λ s q. cc q)
text_or_not (py_bool b) = inr (λ s q. cc q)
text_or_not (py_int n) = inr (λ s q. cc q)
text_or_not (py_datetime d) = inr (λ s q. cc q)
text_or_not (py_other n) = inr (λ s q. cc q)

module _ (p : Parsers) (catalog : Catalog) (now : DateTime) (m : ContextMapping) where
  -- The engine raises on a mapping exactly if the mapping is read as a context whose status is no
  -- text while the absence of a claim, of a hold and of a dispute is confirmed.
  pub evaluate_mapping-raises :
      (evaluate_mapping p catalog now m ≡ err status_without_lower)
      ↔ ((r : ReadContext) × (from_dict p m ≡ ok r) × IsNoText r.0 × IsClear r.1)
  unfolding evaluate_mapping evaluate_read
  evaluate_mapping-raises = by_result (from_dict p m) refl
    where
      by_result :
          (q : Result ContextError ReadContext)
          → from_dict p m ≡ q
          → (evaluate_read catalog now q ≡ err status_without_lower)
            ↔ ((r : ReadContext) × (from_dict p m ≡ ok r) × IsNoText r.0 × IsClear r.1)
      by_result (err x) e = (λ h. cc h, λ (r, k, _, _). cc (sym e ∙ k))
      by_result (ok (v, c)) e =
          let test = evaluate_context-Raises catalog c v in
          (
            (λ h. let (n, clear) = test.0 h in ((v, c), e, n, clear)),
            (λ (r, k, n, clear).
                let same = same_context r (v, c) (sym k ∙ e) in
                test.1 (
                  subst (λ (z : ReadContext). IsNoText z.0) same n,
                  subst (λ (z : ReadContext). IsClear z.1) same clear,
                )),
          )

  module _ (t : String) (set : EligibleActionSet) (h : str_eq t "abstain" ≡ false)
      (listed : contains t set.eligible_actions ≡ true) where
    abbrev Offers : PolicyContext → Type 0
    Offers c =
        (a : ConservationActionDefinition) × Memᴰ a catalog × (a.action_type ≡ t) × Permits c a

    permitted :
        (v : PyValue) (c : PolicyContext)
        → evaluate_context catalog (v, c) ≡ ok set
        → ((s : String) × (v ≡ py_text s)) × IsOpen c × Offers c
    permitted v c k =
        let same = evaluate_context-answers catalog c v set k in
        let (o, a) = (evaluate-offers catalog c t h).0 (
          subst (λ (z : EligibleActionSet). contains t z.eligible_actions ≡ true) (sym same)
            listed) in
        (
          elim (text_or_not v) [
            | inl s ↦ s
            | inr n ↦ cc (
                sym k
                ∙ (evaluate_context-Raises catalog c v).1
                    (n, (o.no_claim, o.no_hold, o.no_dispute)))
          ],
          o,
          a,
        )

    offered_by :
        (q : Result ContextError ReadContext)
        → from_dict p m ≡ q
        → evaluate_read catalog now q ≡ ok set
        → (status : String) × (c : PolicyContext) × (from_dict p m ≡ ok (py_text status, c))
          × IsWellFormed p (py_text status, c)
          × IsOpen c
          × Offers c
    unfolding evaluate_read build_fail_closed_error_set
    offered_by (err x) e v =
        let only : contains t ("abstain" ∷ []) ≡ true =
          subst (λ l. contains t l ≡ true)
            (sym (ap (λ (z : EligibleActionSet). z.eligible_actions) (same_set _ set v))) listed in
        absurd (ground (arith, only, h, eq_iff "abstain" t, eq_iff t "abstain"))
      where
        same_set :
            (x y : EligibleActionSet)
            → ◌≡◌ {A = Result EvaluationError EligibleActionSet} (ok x) (ok y)
            → x ≡ y
        same_set x y k = cc k
    offered_by (ok (v, c)) e k =
        let ((s, text), o, a) = permitted v c k in
        let found = e ∙ ap (λ z. ok (z, c)) text in
        (s, c, found, from_dict-IsWellFormed p m (py_text s, c) found, o, a)

  -- Whatever the mapping, an intervention type other than abstain is listed as eligible only if the
  -- mapping was read as a well-formed context with a text for its status, the policy is open, and
  -- an action of that type in the catalog meets all its conditions there.
  pub evaluate_mapping-offers :
      (t : String) (set : EligibleActionSet)
      → str_eq t "abstain" ≡ false
      → evaluate_mapping p catalog now m ≡ ok set
      → contains t set.eligible_actions ≡ true
      → (status : String) × (c : PolicyContext) × (from_dict p m ≡ ok (py_text status, c))
        × IsWellFormed p (py_text status, c)
        × IsOpen c
        × ((a : ConservationActionDefinition) × Memᴰ a catalog × (a.action_type ≡ t) × Permits c a)
  unfolding evaluate_mapping
  evaluate_mapping-offers t set h answer listed =
      offered_by t set h listed (from_dict p m) refl answer
