-- ===== src/Allocation/Completes.antt =====
-- optimization/solver.py: allocate_recommendations returns for every small, well-formed portfolio.
use mathlib.Core.List.{Memᴰ}
use mathlib.Core.Path.{subst}
use inforsight.Common.{
  ℕ, suc, ◌≤◌, String, true, false, not, ◌≡◌, refl, sym, ap, ◌∙◌, inl, inr, Bool-cases, some, List,
  [], ◌∷◌, length, str_eq, eq_iff, ltb, ◌==◌, arith,
}
use inforsight.Common.Dict.{Dict, get, values}
use inforsight.Common.Members.{filtered, mem-filtered}
use inforsight.Common.Sort.{mem-sort}
use inforsight.Common.Result.{ok}
use inforsight.Allocation.Models.{ActionUtility, OptimalRecommendation, PortfolioOptimizer}
use inforsight.Allocation.Exact.{Used, Candidate, is_choice, choice_le, choices_of, exact}
use inforsight.Allocation.Selections.{Chosen, done, choose, action_names, IsFeasible}
use inforsight.Allocation.Optimal.{menus_of}
use inforsight.Allocation.Answers.{Answers, exact-Answers}
use inforsight.Allocation.Portfolio.{
  PortfolioAllocation, portfolio_allocation, Pair, ids_or_policies, has_repeats, zipped, pair_le,
  ids_of, portfolio_of, selected_recommendation, selected_all, solve, allocation_of, ordered_pairs,
  allocate_recommendations,
}
use inforsight.Allocation.Allocated.{solve-exact}
use inforsight.Allocation.Returns.{CanAbstain, AllAbstain, exact-returns}

values-mem :
    (d : Dict ActionUtility) (u : ActionUtility)
    → Memᴰ u (values d)
    → (k : String) × Memᴰ {A = String × ActionUtility} (k, u) d
values-mem [] u m = elim m [ ]
values-mem ((k, v) ∷ d) u (Memᴰ.head q) = (k, Memᴰ.head (λ i. (k, q i)))
values-mem ((k, v) ∷ d) u (Memᴰ.tail m) = let (j, n) = values-mem d u m in (j, Memᴰ.tail n)

-- What stands under a key is found, or something before it.
get-mem :
    (d : Dict ActionUtility) (k : String) (u : ActionUtility)
    → Memᴰ {A = String × ActionUtility} (k, u) d
    → (v : ActionUtility) × (get k d ≡ some v)
unfolding get
get-mem [] k u m = elim m [ ]
get-mem ((j, w) ∷ d) k u m = elim (Bool-cases (str_eq j k)) [
  | inl b ↦ (w, rw (get, b) refl)
  | inr b ↦ elim m [
    | Memᴰ.head q ↦ cc (sym b ∙ same_text j k (sym (ap (λ (z : String × ActionUtility). z.0) q)))
    | Memᴰ.tail n ↦ let (v, p) = get-mem d k u n in (v, rw (get, b) p)
  ]
]
  where
    same_text : (a b : String) → a ≡ b → str_eq a b ≡ true
    same_text a b q = ground (arith, eq_iff a b, q)

abbrev AllCan : List Pair → Type 0
AllCan [] = Unit
AllCan (p ∷ ps) = CanAbstain p.1.action_utilities × AllCan ps

keyed_choice :
    (d : Dict ActionUtility)
    → CanAbstain d
    → (x : ActionUtility) → Memᴰ x (choices_of d)
    → (v : ActionUtility) × (get x.action_type d ≡ some v)
unfolding choices_of
keyed_choice d k x m =
    let (j, n) = values-mem d x (
      mem-filtered is_choice (values d) x
        (mem-sort choice_le x (filtered is_choice (values d)) m)) in
    let same = k.keyed (j, x) n in
    get-mem d x.action_type x (subst (λ z. Memᴰ {A = String × ActionUtility} (z, x) d) same n)

selected_all-cons :
    (p : Pair) (ps : List Pair) (a : String) (actions : List String) (v : ActionUtility)
    (rs : List OptimalRecommendation)
    → get a p.1.action_utilities ≡ some v
    → selected_all ps actions ≡ ok rs
    → selected_all (p ∷ ps) (a ∷ actions) ≡ ok (record p.1 { recommended_action = a } ∷ rs)
unfolding selected_all selected_recommendation
selected_all-cons p ps a actions v rs q h = rw (selected_recommendation, q, h) refl

selected_all-returns :
    {menus : List (List ActionUtility)} {sel : List ActionUtility}
    → Chosen menus sel
    → (ps : List Pair) → AllCan ps
    → menus ≡ menus_of (portfolio_of ps)
    → (rs : List OptimalRecommendation) × (selected_all ps (action_names sel) ≡ ok rs)
      × (length rs ≡ length (ids_of ps))
unfolding selected_all
selected_all-returns done [] k q = ([], refl, refl)
selected_all-returns done (p ∷ ps) k q = cc q
selected_all-returns (choose x i c) [] k q = cc q
selected_all-returns (choose {menu} {menus} {sel} x i c) (p ∷ ps) (k, ks) q =
    let heads : menu ≡ choices_of p.1.action_utilities = cc q in
    let tails : menus ≡ menus_of (portfolio_of ps) = cc q in
    let (rs, h, n) = selected_all-returns c ps ks tails in
    let (v, g) = keyed_choice p.1.action_utilities k x (subst (Memᴰ x) heads i) in
    (
      record p.1 { recommended_action = x.action_type } ∷ rs,
      selected_all-cons p ps x.action_type (action_names sel) v rs g h,
      ap (λ m. suc m) n,
    )

within_capacity : (most n : ℕ) → n ≤ most → ltb most n ≡ false
within_capacity most n h = ground arith

same_count : (n m : ℕ) → n ≡ m → not (n == m) ≡ false
same_count n m h = ground arith

all_abstain : (ps : List Pair) → AllCan ps → AllAbstain (portfolio_of ps)
all_abstain [] k = tt
all_abstain (p ∷ ps) (k, ks) = (k, all_abstain ps ks)

allocation_of-returns :
    (o : PortfolioOptimizer) (ps : List Pair) (best : Used × Candidate)
    (rs : List OptimalRecommendation)
    → selected_all ps best.1.actions ≡ ok rs
    → length rs ≡ length (ids_of ps)
    → IsFeasible o best.0
    → (a : PortfolioAllocation) × (allocation_of o ps best ≡ ok a)
unfolding allocation_of portfolio_allocation
allocation_of-returns o ps best rs h n f = (
  record {
    budget_capacity_usd_micros = o.budget_capacity_usd_micros;
    budget_used_usd_micros = best.0.cost;
    personnel_capacity_seconds = o.personnel_capacity_seconds;
    personnel_used_seconds = best.0.seconds;
    objective_usd_micros = best.1.objective;
    recommendations = rs;
    occurrence_ids = ids_of ps;
  },
  rw
      (
        h,
        within_capacity o.budget_capacity_usd_micros best.0.cost f.budget,
        within_capacity o.personnel_capacity_seconds best.0.seconds f.personnel,
        same_count (length rs) (length (ids_of ps)) n,
      )
      refl,
)

all_can : (ps : List Pair) → ((p : Pair) → Memᴰ p ps → CanAbstain p.1.action_utilities) → AllCan ps
all_can [] k = tt
all_can (p ∷ ps) k = (k p (Memᴰ.head refl), all_can ps (λ q m. k q (Memᴰ.tail m)))

zipped-mem :
    (ids : List String) (rs : List OptimalRecommendation) (p : Pair)
    → Memᴰ p (zipped ids rs)
    → Memᴰ p.1 rs
zipped-mem [] rs p m = elim m [ ]
zipped-mem (id ∷ ids) [] p m = elim m [ ]
zipped-mem (id ∷ ids) (r ∷ rs) p (Memᴰ.head q) = Memᴰ.head (ap (λ (z : Pair). z.1) q)
zipped-mem (id ∷ ids) (r ∷ rs) p (Memᴰ.tail m) = Memᴰ.tail (zipped-mem ids rs p m)

module _ (o : PortfolioOptimizer) (recommendations : List OptimalRecommendation)
    (ids : List String) where
  allocate_recommendations-ok :
      (s : Used × Candidate) (a : PortfolioAllocation)
      → length (ids_or_policies ids recommendations) ≡ length recommendations
      → has_repeats (ids_or_policies ids recommendations) ≡ false
      → solve o (ordered_pairs recommendations ids) ≡ ok s
      → allocation_of o (ordered_pairs recommendations ids) s ≡ ok a
      → allocate_recommendations o recommendations ids true ≡ ok a
  unfolding allocate_recommendations
  allocate_recommendations-ok s a covers distinct h q =
      rw
        (
          same_count (length (ids_or_policies ids recommendations)) (length recommendations) covers,
          distinct,
          h,
        )
        q

  -- At most six recommendations, each with utilities under their action types and a free way to
  -- abstain, with one distinct id each and a cutoff with a time zone: an allocation is returned.
  pub allocate_recommendations-returns :
      length recommendations ≤ 6
      → length (ids_or_policies ids recommendations) ≡ length recommendations
      → has_repeats (ids_or_policies ids recommendations) ≡ false
      → ((r : OptimalRecommendation) → Memᴰ r recommendations → CanAbstain r.action_utilities)
      → (a : PortfolioAllocation) × (allocate_recommendations o recommendations ids true ≡ ok a)
  allocate_recommendations-returns small covers distinct can =
      let ps = ordered_pairs recommendations ids in
      let k : AllCan ps = all_can ps (λ p m. can p.1 (
        zipped-mem (ids_or_policies ids recommendations) recommendations p
          (mem-sort pair_le p (zipped (ids_or_policies ids recommendations) recommendations) m))) in
      let (s, e) =
        exact-returns o (portfolio_of ps) (all_abstain ps k) (exact o (portfolio_of ps))
          (exact-Answers o (portfolio_of ps)) in
      let best = subst (Answers o (portfolio_of ps)) e (exact-Answers o (portfolio_of ps)) in
      let (rs, h, n) = selected_all-returns best.chosen ps k refl in
      let (a, q) =
        allocation_of-returns o ps s rs
          (ap (λ (c : Candidate). selected_all ps c.actions) best.gains ∙ h) n best.feasible in
      (
        a,
        allocate_recommendations-ok s a covers distinct
            (solve-exact o recommendations ids small ∙ e) q,
      )
