-- ===== src/Rules/Eligibility.antt =====
-- What the engine's results mean (rules/engine.py).
use mathlib.Core.List.{Memᴰ}
use inforsight.Common.{
  String, Bool, true, false, not, ◌||◌, ◌≡◌, ◌↔◌, refl, sym, ◌∙◌, ap, some, [], ◌∷◌, ◌++◌, any,
  contains, str_eq, arith, inl, inr, Bool-cases, lower_is, ◌⊎◌,
}
use inforsight.Rules.Models.{PolicyContext, ConservationActionDefinition}
use inforsight.Rules.Invariants.{evaluate_legal_freeze, evaluate_policy_viability}
use inforsight.Rules.Engine.{
  Catalog, is_abstain, init_catalog, global_safety_missing, evaluate_action, evaluate, fill,
  build_unavailable_set,
}
use inforsight.Rules.Checks.{Permits}
use inforsight.Rules.Loop.{fill-eligible, offers-mem}
use inforsight.Rules.Judged.{
  evaluate_action-type, judged_eligible, blocked_offers, blocked_abstain, evaluated_abstain,
}

-- Every fact on claims, holds and disputes is confirmed absent, and the policy is in force.
pub record IsOpen (c : PolicyContext) : Type 0 where
  pub no_claim : c.has_active_claim ≡ some false
  pub no_hold : c.has_legal_hold ≡ some false
  pub no_dispute : c.has_registered_dispute ≡ some false
  pub viable : (lower_is c.status "active" || lower_is c.status "grace_period") ≡ true

-- The engine evaluates every action on its own exactly if the policy is open.
opened :
    (c : PolicyContext)
    → ((global_safety_missing c ≡ false)
        × ((evaluate_legal_freeze c).0 ≡ false)
        × ((evaluate_policy_viability c).0 ≡ true))
      ↔ IsOpen c
unfolding global_safety_missing evaluate_legal_freeze evaluate_policy_viability
opened c = ground arith

any-append :
    (xs ys : Catalog) → any is_abstain (xs ++ ys) ≡ (any is_abstain xs || any is_abstain ys)
any-append [] ys = refl
any-append (x ∷ xs) ys = ground (arith, any-append xs ys)

-- The constructor's catalog has an abstain action.
init_has_abstain : (catalog : Catalog) → any is_abstain (init_catalog catalog) ≡ true
unfolding init_catalog
init_has_abstain catalog = elim (Bool-cases (any is_abstain catalog)) [
  | inl e ↦ rw e e
  | inr e ↦ rw e (any-append catalog _ ∙ ground arith)
]

module _ (catalog : Catalog) (c : PolicyContext) where
  -- On an open policy the results and the list come from the third loop.
  evaluate-open :
      IsOpen c
      → ((evaluate catalog c).eligible_actions ≡ (fill (evaluate_action c) catalog ([], [])).1)
        × ((evaluate catalog c).results ≡ (fill (evaluate_action c) catalog ([], [])).0)
        × ((evaluate catalog c).is_frozen ≡ false)
  unfolding evaluate
  evaluate-open o = let (m, f, v) = (opened c).1 o in rw (m, f, v) (refl, refl, refl)

  closed_offers :
      (t : String)
      → str_eq t "abstain" ≡ false
      → (IsOpen c → ⊥)
      → contains t (evaluate catalog c).eligible_actions ≡ false
  unfolding evaluate build_unavailable_set
  closed_offers t h n = elim (Bool-cases (global_safety_missing c)) [
    | inl m ↦ rw m refl
    | inr m ↦ elim (Bool-cases (evaluate_legal_freeze c).0) [
      | inl f ↦ rw (m, f) (fill-eligible _ t catalog [] [] ∙ blocked_offers _ _ t catalog h)
      | inr f ↦ elim (Bool-cases (evaluate_policy_viability c).0) [
        | inl v ↦ absurd (n ((opened c).0 (m, f, v)))
        | inr v ↦ rw (m, f, v) (fill-eligible _ t catalog [] [] ∙ blocked_offers _ _ t catalog h)
      ]
    ]
  ]

  opened_or_closed : IsOpen c ⊎ (IsOpen c → ⊥)
  opened_or_closed =
      let iff = opened c in
      elim (Bool-cases (global_safety_missing c)) [
        | inl m ↦ inr (λ o. ground (arith, iff.1 o))
        | inr m ↦ elim (Bool-cases (evaluate_legal_freeze c).0) [
          | inl f ↦ inr (λ o. ground (arith, iff.1 o))
          | inr f ↦ elim (Bool-cases (evaluate_policy_viability c).0) [
            | inl v ↦ inl (iff.0 (m, f, v))
            | inr v ↦ inr (λ o. ground (arith, iff.1 o))
          ]
        ]
      ]

  open_offers :
      (t : String)
      → str_eq t "abstain" ≡ false
      → IsOpen c
      → (contains t (evaluate catalog c).eligible_actions ≡ true)
        ↔ ((a : ConservationActionDefinition) × Memᴰ a catalog × (a.action_type ≡ t) × Permits c a)
  open_offers t h o =
      let list = (evaluate-open o).0 in
      let offered = fill-eligible (evaluate_action c) t catalog [] [] in
      let found = offers-mem (evaluate_action c) t catalog in
      let not_abstain : (a : ConservationActionDefinition)
          → a.action_type ≡ t
          → is_abstain a ≡ false =
        λ a e. rw e h in
      (
        (λ k.
            let (a, m, fit, e) = found.0 (sym offered ∙ ap (contains t) (sym list) ∙ k) in
            let e' = sym (evaluate_action-type c a) ∙ e in
            (a, m, e', (judged_eligible c a (not_abstain a e')).0 fit)),
        (λ (a, m, e, p).
            ap (contains t) list
            ∙ offered
            ∙ found.1
                (a, m, (judged_eligible c a (not_abstain a e)).1 p, evaluate_action-type c a ∙ e)),
      )

  -- An intervention type other than abstain is listed as eligible exactly if the policy is open,
  -- with every claim, hold and dispute confirmed absent and a status in force, and an action of
  -- that type in the catalog meets all its consent, cooling-off, grace and tenure conditions.
  pub evaluate-offers :
      (t : String)
      → str_eq t "abstain" ≡ false
      → (contains t (evaluate catalog c).eligible_actions ≡ true) ↔ (
          IsOpen c
          × ((a : ConservationActionDefinition) × Memᴰ a catalog
              × (a.action_type ≡ t)
              × Permits c a))
  evaluate-offers t h = elim opened_or_closed [
    | inl o ↦ (λ k. (o, (open_offers t h o).0 k), λ (_, x). (open_offers t h o).1 x)
    | inr n ↦ (λ k. cc (closed_offers t h n), λ (o, _). absurd (n o))
  ]

  abstain_listed :
      global_safety_missing c ≡ false
      → contains "abstain" (evaluate catalog c).eligible_actions ≡ any is_abstain catalog
  unfolding evaluate
  abstain_listed m = elim (Bool-cases (evaluate_legal_freeze c).0) [
    | inl f ↦ rw (m, f) (fill-eligible _ "abstain" catalog [] [] ∙ blocked_abstain _ _ catalog)
    | inr f ↦ elim (Bool-cases (evaluate_policy_viability c).0) [
      | inl v ↦ rw (m, f, v) (fill-eligible _ "abstain" catalog [] [] ∙ evaluated_abstain c catalog)
      | inr v ↦ rw (m, f, v) (fill-eligible _ "abstain" catalog [] [] ∙ blocked_abstain _ _ catalog)
    ]
  ]

listed_or_not :
    (catalog : Catalog) (c : PolicyContext)
    → contains "abstain" (evaluate (init_catalog catalog) c).eligible_actions
      ≡ not (global_safety_missing c)
listed_or_not catalog c = elim (Bool-cases (global_safety_missing c)) [
  | inl m ↦ rw m (nothing_listed m)
  | inr m ↦ rw m (abstain_listed (init_catalog catalog) c m ∙ init_has_abstain catalog)
]
  where
    nothing_listed :
        global_safety_missing c ≡ true
        → contains "abstain" (evaluate (init_catalog catalog) c).eligible_actions ≡ false
    nothing_listed m = unfold evaluate build_unavailable_set in rw m refl

-- A claim, a hold or a dispute is confirmed, or each of them is confirmed absent.
abbrev pub IsAnswered : PolicyContext → Type 0
IsAnswered c =
    (c.has_active_claim ≡ some true)
    ⊎ ((c.has_legal_hold ≡ some true)
        ⊎ ((c.has_registered_dispute ≡ some true)
            ⊎ ((c.has_active_claim ≡ some false)
                × (c.has_legal_hold ≡ some false)
                × (c.has_registered_dispute ≡ some false))))

answered :
    (missing : Bool) (c : PolicyContext)
    → global_safety_missing c ≡ missing
    → (not missing ≡ true) ↔ IsAnswered c
unfolding global_safety_missing
answered missing c h = ground (arith, h)

-- For any catalog that the engine is given, abstain is listed exactly if a claim, a hold or a
-- dispute is confirmed, or each of the three is confirmed absent.
pub evaluate-abstain :
    (catalog : Catalog) (c : PolicyContext)
    → (contains "abstain" (evaluate (init_catalog catalog) c).eligible_actions ≡ true)
      ↔ IsAnswered c
evaluate-abstain catalog c =
    rw (listed_or_not catalog c) (answered (global_safety_missing c) c refl)
