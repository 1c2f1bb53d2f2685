-- ===== src/Allocation/Answers.antt =====
-- optimization/solver.py: the dynamic program against its specification, on every branch.
use mathlib.Core.List.{Memᴰ}
use mathlib.Core.Path.{subst}
use inforsight.Common.{
  ℕ, Option, none, some, length, ◌≡◌, refl, sym, ap, ◌∙◌, inl, inr, Bool-cases, List, [], ◌∷◌,
  arith,
}
use inforsight.Common.Dict.{Dict}
use inforsight.Common.Result.{Result, ok, err}
use inforsight.Allocation.Models.{
  ActionUtility, AllocationError, lacks_abstain, infeasible, PortfolioOptimizer,
}
use inforsight.Allocation.Exact.{
  Used, Candidate, States, improves, try_states, choices_of, has_abstain, run, best_of, pick, exact,
  nothing_used, no_choice,
}
use inforsight.Allocation.Selections.{
  Chosen, usage, worth, AtMost, IsFeasible, NoWorse, NoWorse-refl, NoWorse-trans, improves-NoWorse,
  keeps-NoWorse,
}
use inforsight.Allocation.Totals.{plus, join, plus-nothing}
use inforsight.Allocation.Optimal.{
  menus_of, LacksAbstain, AllFeasible, HasRounds, run-IsReached, run-Covers, IsReached,
}
use inforsight.Allocation.Table.{Covers}

-- The answer is what a feasible selection uses and is worth, and no feasible one is better.
pub record IsOptimal (o : PortfolioOptimizer) (menus : List (List ActionUtility)) (u : Used)
    (c : Candidate) : Type 0 where
  pub sel : List ActionUtility
  pub chosen : Chosen menus sel
  pub uses : u ≡ usage sel
  pub gains : c ≡ worth sel
  pub feasible : IsFeasible o u
  pub best :
      (other : List ActionUtility)
      → Chosen menus other
      → IsFeasible o (usage other)
      → NoWorse c (worth other)

-- What each answer of the allocator says of the portfolio.
abbrev pub Answers :
    PortfolioOptimizer
    → List (Dict ActionUtility)
    → Result AllocationError (Used × Candidate)
    → Type 0
Answers o portfolio (ok (u, c)) = IsOptimal o (menus_of portfolio) u c
Answers o portfolio (err infeasible) =
    (sel : List ActionUtility) → Chosen (menus_of portfolio) sel → ¬ IsFeasible o (usage sel)
Answers o portfolio (err lacks_abstain) = LacksAbstain portfolio
Answers o portfolio (err _) = ⊥

-- The minimum is in the table, and nothing in the table improves on it.
best_of-mem : (b : Used × Candidate) (states : States) → Memᴰ (best_of b states) (b ∷ states)
unfolding best_of
best_of-mem b [] = Memᴰ.head refl
best_of-mem b (s ∷ states) = elim (Bool-cases (improves s.1 b.1)) [
  | inl i ↦ rw i (Memᴰ.tail (best_of-mem s states))
  | inr i ↦ rw i (skip (best_of-mem b states))
]
  where
    skip : {t : Used × Candidate} → Memᴰ t (b ∷ states) → Memᴰ t (b ∷ s ∷ states)
    skip (Memᴰ.head q) = Memᴰ.head q
    skip (Memᴰ.tail m) = Memᴰ.tail (Memᴰ.tail m)

best_of-NoWorse :
    (b : Used × Candidate) (states : States) (t : Used × Candidate)
    → Memᴰ t (b ∷ states)
    → NoWorse (best_of b states).1 t.1
unfolding best_of
best_of-NoWorse b [] t (Memᴰ.head q) =
    subst (λ (z : Used × Candidate). NoWorse b.1 z.1) (sym q) (NoWorse-refl b.1)
best_of-NoWorse b [] t (Memᴰ.tail m) = elim m [ ]
best_of-NoWorse b (s ∷ states) t m = elim (Bool-cases (improves s.1 b.1)) [
  | inl i ↦
      rw (best_of, i)
        (elim m [
          | Memᴰ.head q ↦
              subst (λ (z : Used × Candidate). NoWorse (best_of s states).1 z.1) (sym q)
                (NoWorse-trans (best_of s states).1 s.1 b.1
                  (best_of-NoWorse s states s (Memᴰ.head refl)) (improves-NoWorse s.1 b.1 i))
          | Memᴰ.tail k ↦ best_of-NoWorse s states t k
        ])
  | inr i ↦
      rw (best_of, i)
        (elim m [
          | Memᴰ.head q ↦ best_of-NoWorse b states t (Memᴰ.head q)
          | Memᴰ.tail (Memᴰ.head q) ↦
              subst (λ (z : Used × Candidate). NoWorse (best_of b states).1 z.1) (sym q)
                (NoWorse-trans (best_of b states).1 b.1 s.1
                  (best_of-NoWorse b states b (Memᴰ.head refl)) (keeps-NoWorse s.1 b.1 i))
          | Memᴰ.tail (Memᴰ.tail k) ↦ best_of-NoWorse b states t (Memᴰ.tail k)
        ])
]

-- The loop fails only on a menu with no way to abstain.
run-err :
    (o : PortfolioOptimizer) (portfolio : List (Dict ActionUtility)) (states : States)
    (e : AllocationError)
    → run o portfolio states ≡ err e
    → (e ≡ lacks_abstain) × LacksAbstain portfolio
unfolding run
run-err o [] states e h = cc
run-err o (u ∷ rest) states e h = elim (Bool-cases (has_abstain (choices_of u))) [
  | inl b ↦
      let (q, k) =
        run-err o rest (try_states o (choices_of u) states []) e (ground (arith, b, h)) in
      (q, inr k)
  | inr b ↦ (ground (arith, b, h), inl b)
]

module _ (o : PortfolioOptimizer) (portfolio : List (Dict ActionUtility)) where
  abbrev start : States
  start = (nothing_used, no_choice) ∷ []

  none_used : (most : Option ℕ) → AtMost most 0
  none_used none = tt
  none_used (some m) = omega arith

  start-IsFeasible : AllFeasible o start
  start-IsFeasible s (Memᴰ.head q) =
      subst (λ (t : Used × Candidate). IsFeasible o t.0) (sym q)
        (record {
          budget = omega arith;
          personnel = omega arith;
          specialists = none_used o.legacy_specialist_capacity;
        })
  start-IsFeasible s (Memᴰ.tail m) = elim m [ ]

  start-HasRounds : HasRounds o 0 start
  start-HasRounds s (Memᴰ.head q) = ap (λ (t : Used × Candidate). length t.1.ties) q
  start-HasRounds s (Memᴰ.tail m) = elim m [ ]

  -- The last table covers each feasible selection.
  final-Covers :
      (states : States)
      → run o portfolio start ≡ ok states
      → {sel : List ActionUtility} → Chosen (menus_of portfolio) sel
      → IsFeasible o (usage sel)
      → Covers states (usage sel) (worth sel)
  final-Covers states h {sel} chosen f =
      subst (λ u. Covers states u (worth sel)) (plus-nothing sel)
        (run-Covers o chosen portfolio start states 0 refl h start-HasRounds nothing_used no_choice
          (Memᴰ.head refl) (subst (IsFeasible o) (sym (plus-nothing sel)) f))

  -- What an entry of the table that is reached from the start, and that none beats, is.
  reached-IsOptimal :
      (states : States)
      → run o portfolio start ≡ ok states
      → (s : Used × Candidate) → IsReached o (menus_of portfolio) start s
      → ((t : Used × Candidate) → Memᴰ t states → NoWorse s.1 t.1)
      → IsOptimal o (menus_of portfolio) s.0 s.1
  reached-IsOptimal states h s r best =
      let from : (r.used, r.candidate) ≡ (nothing_used, no_choice) = elim r.start [
        | Memᴰ.head q ↦ q
        | Memᴰ.tail k ↦ elim k [ ]
      ] in
      let gives = r.gives ∙ ap (λ (t : Used × Candidate). (plus t.0 r.sel, join t.1 r.sel)) from in
      record {
        sel = r.sel;
        chosen = r.chosen;
        uses = ap (λ (t : Used × Candidate). t.0) gives ∙ plus-nothing r.sel;
        gains = ap (λ (t : Used × Candidate). t.1) gives;
        feasible = r.feasible;
        best = λ other chosen f.
            let k = final-Covers states h chosen f in
            NoWorse-trans s.1 k.held (worth other) (best (usage other, k.held) k.member) k.no_worse;
      }

  pick-Answers :
      (states : States) → run o portfolio start ≡ ok states → Answers o portfolio (pick states)
  pick-Answers [] h = λ sel chosen f. elim ((final-Covers [] h chosen f).member) [ ]
  pick-Answers (s ∷ states) h =
      let t = best_of s states in
      reached-IsOptimal (s ∷ states) h t
        (run-IsReached o portfolio start (s ∷ states) h start-IsFeasible t (best_of-mem s states))
        (λ e m. best_of-NoWorse s states e m)

  exact-of :
      (r : Result AllocationError States)
      → run o portfolio start ≡ r
      → Answers o portfolio (elim r [ ok states ↦ pick states | err e ↦ err e ])
  exact-of (ok states) h = pick-Answers states h
  exact-of (err e) h =
      let (q, k) = run-err o portfolio start e h in
      subst (λ x. Answers o portfolio (err x)) (sym q) k

  -- The exact allocation of a portfolio, whatever it answers: a value with the totals of a feasible
  -- selection that no feasible selection beats, be it by objective or by tie vector; infeasible
  -- only if no selection is feasible; and a lack of abstain only where a menu has none.
  pub exact-Answers : Answers o portfolio (exact o portfolio)
  unfolding exact
  exact-Answers = exact-of (run o portfolio start) refl
