-- ===== src/Audit/Governance.antt =====
-- audit/verifier.py: what a verified log shows of the workflow (ADR 0002).
use mathlib.Core.List.{Memᴰ}
use mathlib.Core.Path.{subst}
use inforsight.Common.{
  ℕ, suc, String, Bool, true, false, not, ◌&&◌, ◌||◌, ◌≡◌, ◌≢◌, refl, sym, ap, Option, none, some,
  List, [], ◌∷◌, ◌⊎◌, inl, inr, arith, eq_iff,
}
use inforsight.Common.Result.{Result, ok, err, ◌>>◌, refuse_if}
use inforsight.Workflow.Models.{reviewer_id_matches, justification_missing}
use inforsight.Audit.Entries.{
  RawReview, ReviewField, no_key, no_review, empty_review, given, RawPayload, RawEntry, Hashing,
  text_of, review_of,
}
use inforsight.Audit.Verifier.{
  Violation, reviewer_invalid, decision_invalid, autonomous_execution, Progress, Scorecard, start,
  check_execution, check_justification, check_governance, is_text, or_empty, verify_from,
  verify_records,
}
use inforsight.Audit.Chain.{verify_entry-IsPassed, verify_from-cons, verify_records-counts}

-- A review by an identified reviewer that lets the action run.
abbrev pub Allows : RawReview → Type 0
Allows r =
    (reviewer_id_matches (or_empty r.reviewer_id) ≡ true)
    × ((r.decision ≡ some "APPROVED") ⊎ (r.decision ≡ some "OVERRIDDEN"))

-- An entry that executes does not come from RECOMMENDED and has such a review; a review that
-- overrides or rejects has its justification.
pub record IsGoverned (x : RawPayload) : Type 0 where
  pub reviewed :
      x.to_state ≡ some "EXECUTED"
      → (x.from_state ≢ some "RECOMMENDED")
        × ((r : RawReview) × (x.human_review ≡ given r) × Allows r)
  pub justified :
      (r : RawReview)
      → x.human_review ≡ given r
      → (r.decision ≡ some "OVERRIDDEN") ⊎ (r.decision ≡ some "REJECTED")
      → justification_missing (text_of r.justification) ≡ false

is_text_of : (s : String) (o : Option String) → o ≡ some s → is_text s o ≡ true
is_text_of s o k = rw k ((eq_iff s s).1 refl)

is_text-some : (s : String) (o : Option String) → is_text s o ≡ true → o ≡ some s
is_text-some s none h = cc
is_text-some s (some t) h = ap some ((eq_iff t s).0 h)

allowed :
    (known a b : Bool) (x y : Violation)
    → (refuse_if (not known) x >> refuse_if (not (a || b)) y) ≡ ok tt
    → (known ≡ true) × ((a ≡ true) ⊎ (b ≡ true))
allowed true true b x y h = (refl, inl refl)
allowed true false true x y h = (refl, inr refl)
allowed true false false x y h = cc
allowed false a b x y h = cc

check_execution-Allows :
    (found : ReviewField)
    → check_execution true (review_of found) ≡ ok tt
    → (r : RawReview) × (found ≡ given r) × Allows r
unfolding check_execution
check_execution-Allows no_key h = cc
check_execution-Allows no_review h = cc
check_execution-Allows empty_review h = cc
check_execution-Allows (given r) h =
    let (known, decided) = allowed _ _ _ reviewer_invalid decision_invalid h in
    (
      r,
      refl,
      (
        known,
        elim decided [
          | inl d ↦ inl (is_text-some "APPROVED" r.decision d)
          | inr d ↦ inr (is_text-some "OVERRIDDEN" r.decision d)
        ],
      ),
    )

check_justification-ok :
    (r : RawReview)
    → check_justification (some r) ≡ ok tt
    → (r.decision ≡ some "OVERRIDDEN") ⊎ (r.decision ≡ some "REJECTED")
    → justification_missing (text_of r.justification) ≡ false
unfolding check_justification
check_justification-ok r h (inl d) = ground (arith, h, is_text_of "OVERRIDDEN" r.decision d)
check_justification-ok r h (inr d) = ground (arith, h, is_text_of "REJECTED" r.decision d)

three_passed :
    (bad : Bool) (x : Violation) (c d : Result Violation (Unit {0}))
    → (do refuse_if bad x; c; d) ≡ ok tt
    → (bad ≡ false) × (c ≡ ok tt) × (d ≡ ok tt)
three_passed true x c d h = cc
three_passed false x (err e) d h = cc
three_passed false x (ok _) d h = (refl, refl, h)

check_governance-IsGoverned : (x : RawPayload) → check_governance x ≡ ok tt → IsGoverned x
unfolding check_governance
check_governance-IsGoverned x h =
    let (direct, execution, justification) =
      three_passed (is_text "RECOMMENDED" x.from_state && is_text "EXECUTED" x.to_state)
        autonomous_execution _ _ h in
    record {
      reviewed = λ k.
          let runs = is_text_of "EXECUTED" x.to_state k in
          (
            (λ j.
                let comes = is_text_of "RECOMMENDED" x.from_state j in
                ground (arith, direct, runs, comes)),
            check_execution-Allows x.human_review
                (subst (λ b. check_execution b (review_of x.human_review) ≡ ok tt) runs execution),
          );
      justified = λ r k.
          check_justification-ok r
            (subst (λ f. check_justification (review_of f) ≡ ok tt) k justification);
    }

verify_from-IsGoverned :
    (h : Hashing) (es : List RawEntry) (index : ℕ) (p q : Progress)
    → verify_from h index es p ≡ ok q
    → (e : RawEntry) → Memᴰ e es
    → IsGoverned e.payload
verify_from-IsGoverned h [] index p q v e k = elim k [ ]
verify_from-IsGoverned h (x ∷ es) index p q v e k =
    let (r, now, rest) = verify_from-cons h index x es p q v in
    elim k [
      | Memᴰ.head same ↦
          subst (λ y. IsGoverned y.payload) (sym same)
            (check_governance-IsGoverned x.payload
              (verify_entry-IsPassed h index x p r now).governed)
      | Memᴰ.tail m ↦ verify_from-IsGoverned h es (suc index) r q rest e m
    ]

-- Every entry of a log that verifies is governed: where it enters EXECUTED it does not come from
-- RECOMMENDED and carries a review by an identified reviewer who approved or overrode, and every
-- review that overrides or rejects is justified.
pub verify_records-IsGoverned :
    (h : Hashing) (es : List RawEntry) (c : Scorecard)
    → verify_records h es ≡ ok c
    → (e : RawEntry) → Memᴰ e es
    → IsGoverned e.payload
verify_records-IsGoverned h es c v =
    verify_from-IsGoverned h es 0 (start h) c.counts (verify_records-counts h es c v)
