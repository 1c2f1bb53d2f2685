-- ===== src/Allocation/Totals.antt =====
-- Totals on top of a state of the table: what a selection adds to it, in any order of adding.
use mathlib.Core.List.{append_assoc, append-nil}
use inforsight.Common.{
  ℕ, ◌+◌, ◌≤◌, String, Bool, true, ◌&&◌, ◌≡◌, refl, ap, inl, inr, Option, none, some, List, [], ◌∷◌,
  ◌++◌, length, length-append, leb→le, le→leb, arith,
}
use inforsight.Common.Int.{ℤ, pos_part, ◌+ℤ◌, ◌<ℤ◌, +ℤ_parts}
use inforsight.Common.Order.{lex_le-append, text_le, text_le-IsOrder}
use inforsight.Allocation.Models.{
  ActionUtility, PortfolioOptimizer, is_specialist, one_if, tie_name,
}
use inforsight.Allocation.Exact.{
  Used, Candidate, ties_le, spend, extend, fits, specialists_fit, nothing_used,
}
use inforsight.Allocation.Selections.{
  total_cost, total_seconds, total_specialists, add_values, tie_names, action_names, usage,
  IsFeasible, AtMost, NoWorse,
}

abbrev pub plus : Used → List ActionUtility → Used
plus u sel = record {
  cost = u.cost + total_cost sel;
  seconds = u.seconds + total_seconds sel;
  specialists = u.specialists + total_specialists sel;
}

abbrev pub join : Candidate → List ActionUtility → Candidate
join c sel = record {
  objective = add_values c.objective sel;
  ties = c.ties ++ tie_names sel;
  actions = c.actions ++ action_names sel;
}

pub plus-nil : (u : Used) → plus u [] ≡ u
plus-nil u = ground arith

pub plus-cons :
    (u : Used) (x : ActionUtility) (sel : List ActionUtility)
    → plus (spend u x) sel ≡ plus u (x ∷ sel)
plus-cons u x sel = ground arith

pub plus-nothing : (sel : List ActionUtility) → plus nothing_used sel ≡ usage sel
plus-nothing sel = ground arith

pub join-nil : (c : Candidate) → join c [] ≡ c
join-nil c = simp (append-nil)

pub join-cons :
    (c : Candidate) (x : ActionUtility) (sel : List ActionUtility)
    → join (extend c x) sel ≡ join c (x ∷ sel)
join-cons c x sel = simp (append_assoc)

add_values-lt : (sel : List ActionUtility) (a b : ℤ) → a <ℤ b → add_values a sel <ℤ add_values b sel
add_values-lt [] a b h = h
add_values-lt (x ∷ sel) a b h =
    add_values-lt sel (a +ℤ x.net_expected_value_usd_micros) (b +ℤ x.net_expected_value_usd_micros)
      (omega (
        arith,
        h,
        +ℤ_parts a x.net_expected_value_usd_micros,
        +ℤ_parts b x.net_expected_value_usd_micros,
      ))

ties_le-append :
    (xs ys : List String) (sel : List ActionUtility)
    → length xs ≡ length ys
    → ties_le xs ys ≡ true
    → ties_le (xs ++ tie_names sel) (ys ++ tie_names sel) ≡ true
ties_le-append xs ys [] n h = rw (append-nil xs, append-nil ys) h
ties_le-append xs ys (x ∷ sel) n h = simp (append_assoc) at (
    ties_le-append (xs ++ tie_name x ∷ []) (ys ++ tie_name x ∷ []) sel
      (omega (arith, n, length-append xs (tie_name x ∷ []), length-append ys (tie_name x ∷ [])))
      (unfold ties_le in lex_le-append text_le text_le-IsOrder xs ys (tie_name x) n h))

-- A state that is no worse than another stays so with the same choices added.
pub join-NoWorse :
    (c d : Candidate) (sel : List ActionUtility)
    → length c.ties ≡ length d.ties
    → NoWorse c d
    → NoWorse (join c sel) (join d sel)
join-NoWorse c d sel n (inl h) = inl (add_values-lt sel d.objective c.objective h)
join-NoWorse c d sel n (inr (e, h)) =
    inr (ap (λ v. add_values v sel) e, ties_le-append c.ties d.ties sel n h)

within : (most : Option ℕ) (n : ℕ) → specialists_fit most n ≡ true → AtMost most n
within none n h = tt
within (some m) n h = ground arith

within_test : (most : Option ℕ) (n : ℕ) → AtMost most n → specialists_fit most n ≡ true
within_test none n h = refl
within_test (some m) n h = ground arith

-- The test of the loop is what it is to be feasible.
pub fits-IsFeasible : (o : PortfolioOptimizer) (u : Used) → fits o u ≡ true → IsFeasible o u
unfolding fits
fits-IsFeasible o u h =
    let (b, p, s) = three _ _ _ h in
    record {
      budget = leb→le u.cost o.budget_capacity_usd_micros b;
      personnel = leb→le u.seconds o.personnel_capacity_seconds p;
      specialists = within o.legacy_specialist_capacity u.specialists s;
    }
  where
    three : (a b c : Bool) → a && (b && c) ≡ true → (a ≡ true) × (b ≡ true) × (c ≡ true)
    three a b c k = ground arith

-- A choice fits if it is part of a feasible whole.
pub spend-fits :
    (o : PortfolioOptimizer) (u : Used) (x : ActionUtility) (sel : List ActionUtility)
    → IsFeasible o (plus u (x ∷ sel))
    → fits o (spend u x) ≡ true
unfolding fits
spend-fits o u x sel f =
    rw
      (
        le→leb _ _ (part u.cost (pos_part x.direct_cost_usd_micros) (total_cost sel) f.budget),
        le→leb _ _ (part u.seconds (pos_part x.personnel_seconds) (total_seconds sel) f.personnel),
      )
      (within_test o.legacy_specialist_capacity _ (
        fewer o.legacy_specialist_capacity u.specialists (one_if (is_specialist x))
          (total_specialists sel) f.specialists))
  where
    part : (a b c : ℕ) {most : ℕ} → a + (b + c) ≤ most → a + b ≤ most
    part a b c k = omega arith

    fewer : (most : Option ℕ) (a b c : ℕ) → AtMost most (a + (b + c)) → AtMost most (a + b)
    fewer none a b c k = tt
    fewer (some m) a b c k = omega arith
