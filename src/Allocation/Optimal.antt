-- ===== src/Allocation/Optimal.antt =====
-- optimization/solver.py: the dynamic program is exact.
use mathlib.Core.List.{Memᴰ}
use mathlib.Core.Path.{subst}
use inforsight.Common.{
  ℕ, suc, false, ◌≡◌, sym, ap, ◌∙◌, ◌⊎◌, inl, inr, Bool-cases, List, [], ◌∷◌, length, length-append,
  arith,
}
use inforsight.Common.Dict.{Dict}
use inforsight.Common.Result.{ok}
use inforsight.Allocation.Models.{ActionUtility, PortfolioOptimizer, tie_name}
use inforsight.Allocation.Exact.{
  Used, Candidate, States, spend, extend, try_states, choices_of, has_abstain, run,
}
use inforsight.Allocation.Selections.{
  Chosen, done, choose, IsFeasible, NoWorse, NoWorse-refl, NoWorse-trans,
}
use inforsight.Allocation.Table.{Covers, try_states-Covers_self}
use inforsight.Allocation.Sound.{try_states-mem}
use inforsight.Allocation.Totals.{
  plus, join, plus-nil, plus-cons, join-nil, join-cons, join-NoWorse, fits-IsFeasible, spend-fits,
}

abbrev pub menus_of : List (Dict ActionUtility) → List (List ActionUtility)
menus_of [] = []
menus_of (u ∷ rest) = choices_of u ∷ menus_of rest

-- The portfolio has a menu with no way to abstain.
abbrev pub LacksAbstain : List (Dict ActionUtility) → Type 0
LacksAbstain [] = ⊥
LacksAbstain (u ∷ rest) = (has_abstain (choices_of u) ≡ false) ⊎ LacksAbstain rest

-- One round of the loop, where it returns.
run-cons :
    (o : PortfolioOptimizer) (u : Dict ActionUtility) (rest : List (Dict ActionUtility))
    (states final : States)
    → run o (u ∷ rest) states ≡ ok final
    → run o rest (try_states o (choices_of u) states []) ≡ ok final
unfolding run
run-cons o u rest states final h = elim (Bool-cases (has_abstain (choices_of u))) [
  | inl b ↦ rw b at h
  | inr b ↦ ground (arith, b, h)
]

-- An entry of the last table is a start with a selection added, and is feasible.
pub record IsReached (o : PortfolioOptimizer) (menus : List (List ActionUtility)) (states : States)
    (s : Used × Candidate) : Type 0 where
  pub used : Used
  pub candidate : Candidate
  pub start : Memᴰ (used, candidate) states
  pub sel : List ActionUtility
  pub chosen : Chosen menus sel
  pub gives : s ≡ (plus used sel, join candidate sel)
  pub feasible : IsFeasible o s.0

module _ (o : PortfolioOptimizer) where
  abbrev pub AllFeasible : States → Type 0
  AllFeasible states = (s : Used × Candidate) → Memᴰ s states → IsFeasible o s.0

  try_states-AllFeasible :
      (choices : List ActionUtility) (states : States)
      → AllFeasible (try_states o choices states [])
  try_states-AllFeasible choices states s m = elim (try_states-mem o choices states [] s m) [
    | inl k ↦ elim k [ ]
    | inr e ↦
        subst (λ (t : Used × Candidate). IsFeasible o t.0) (sym e.gives)
          (fits-IsFeasible o _ e.fitting)
  ]

  pub run-IsReached :
      (portfolio : List (Dict ActionUtility)) (states final : States)
      → run o portfolio states ≡ ok final
      → AllFeasible states
      → (s : Used × Candidate) → Memᴰ s final
      → IsReached o (menus_of portfolio) states s
  unfolding run
  run-IsReached [] states final h f s m =
      let same : states ≡ final = cc h in
      let k = subst (λ z. Memᴰ s z) (sym same) m in
      record {
        used = s.0;
        candidate = s.1;
        start = k;
        sel = [];
        chosen = done;
        gives = sym (λ i. (plus-nil s.0 i, join-nil s.1 i));
        feasible = f s k;
      }
  run-IsReached (u ∷ rest) states final h f s m =
      let next = try_states o (choices_of u) states [] in
      let r =
        run-IsReached rest next final (run-cons o u rest states final h)
          (try_states-AllFeasible (choices_of u) states) s m in
      elim (try_states-mem o (choices_of u) states [] (r.used, r.candidate) r.start) [
        | inl k ↦ elim k [ ]
        | inr e ↦ record {
          used = e.used;
          candidate = e.candidate;
          start = e.from;
          sel = e.choice ∷ r.sel;
          chosen = choose e.choice e.by r.chosen;
          gives =
              r.gives
              ∙ ap (λ (t : Used × Candidate). (plus t.0 r.sel, join t.1 r.sel)) e.gives
              ∙ (λ i. (plus-cons e.used e.choice r.sel i, join-cons e.candidate e.choice r.sel i));
          feasible = r.feasible;
        }
      ]

  -- All candidates have chosen for as many occurrences.
  abbrev pub HasRounds : ℕ → States → Type 0
  HasRounds n states = (s : Used × Candidate) → Memᴰ s states → length s.1.ties ≡ n

  try_states-HasRounds :
      (choices : List ActionUtility) (states : States) (n : ℕ)
      → HasRounds n states
      → HasRounds (suc n) (try_states o choices states [])
  try_states-HasRounds choices states n h s m = elim (try_states-mem o choices states [] s m) [
    | inl k ↦ elim k [ ]
    | inr e ↦
        ap (λ (t : Used × Candidate). length t.1.ties) e.gives
        ∙ length-append e.candidate.ties (tie_name e.choice ∷ [])
        ∙ omega (arith, h (e.used, e.candidate) e.from)
  ]

  -- Whatever selection is added to a start, if the whole is feasible, the last table covers it.
  pub run-Covers :
      {menus : List (List ActionUtility)} {sel : List ActionUtility}
      → Chosen menus sel
      → (portfolio : List (Dict ActionUtility)) (states final : States) (n : ℕ)
      → menus ≡ menus_of portfolio
      → run o portfolio states ≡ ok final
      → HasRounds n states
      → (u : Used) (c : Candidate) → Memᴰ (u, c) states
      → IsFeasible o (plus u sel)
      → Covers final (plus u sel) (join c sel)
  unfolding run
  run-Covers done [] states final n q h k u c m f =
      let same : states ≡ final = cc h in
      record {
        held = c;
        member =
            subst (λ w. Memᴰ (w, c) final) (sym (plus-nil u)) (subst (λ z. Memᴰ (u, c) z) same m);
        no_worse = subst (NoWorse c) (sym (join-nil c)) (NoWorse-refl c);
      }
  run-Covers done (p ∷ ps) states final n q h k u c m f = cc q
  run-Covers (choose x i r) [] states final n q h k u c m f = cc q
  run-Covers (choose {menu} {menus} {sel} x i r) (p ∷ ps) states final n q h k u c m f =
      let next = try_states o (choices_of p) states [] in
      let heads : menu ≡ choices_of p = cc q in
      let tails : menus ≡ menus_of ps = cc q in
      let step =
        try_states-Covers_self o (choices_of p) states [] u c x m (subst (Memᴰ x) heads i)
          (spend-fits o u x sel f) in
      let rounds = try_states-HasRounds (choices_of p) states n k in
      let rest =
        run-Covers r ps next final (suc n) tails (run-cons o p ps states final h) rounds (spend u x)
          step.held step.member (subst (IsFeasible o) (sym (plus-cons u x sel)) f) in
      record {
        held = rest.held;
        member = subst (λ w. Memᴰ (w, rest.held) final) (plus-cons u x sel) rest.member;
        no_worse = NoWorse-trans rest.held (join step.held sel) (join c (x ∷ sel)) rest.no_worse (
            subst (NoWorse (join step.held sel)) (join-cons c x sel) (
              join-NoWorse step.held (extend c x) sel
                (rounds (spend u x, step.held) step.member
                  ∙ sym (length-append c.ties (tie_name x ∷ []) ∙ omega (arith, k (u, c) m)))
                step.no_worse));
      }
