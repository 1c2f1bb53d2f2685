-- ===== src/Allocation/Served.antt =====
-- optimization/solver.py: what the heuristic answers for a portfolio.
use mathlib.Core.List.{Memᴰ}
use mathlib.Core.Path.{subst}
use inforsight.Common.{
  ℕ, true, false, ◌≡◌, refl, sym, ap, ◌∙◌, inl, inr, Bool-cases, Option, none, some, List, [], ◌∷◌,
  arith,
}
use inforsight.Common.Int.{pos, ◌≤ℤ◌}
use inforsight.Common.Dict.{Dict, get}
use inforsight.Common.Sort.{sort, mem-sort, sort-mem}
use inforsight.Common.Result.{Result, ok, err}
use inforsight.Allocation.Models.{
  ActionUtility, AllocationError, lacks_abstain, incomparable, PortfolioOptimizer,
}
use inforsight.Allocation.Exact.{is_abstain, Used, Candidate, spend, fits}
use inforsight.Allocation.Selections.{
  tie_names, action_names, add_values, usage, AtMost, IsFeasible,
}
use inforsight.Allocation.Heuristic.{
  Occurrence, Bid, Greedy, eligible_of, is_bid, bid_le, any_incomparable, gather, commit_all,
  chosen_of, no_commitment, greedy, heuristic_state,
}
use inforsight.Allocation.Gathered.{
  AreUnique, AnyLacks, IsBidOf, IsGathered, gather-IsGathered, gather-err,
}
use inforsight.Allocation.Committed.{
  IsSound, bid-acts, commit_all-IsSettled, commit_all-IsSound, commit_all-IsSelection,
}
use inforsight.Allocation.Spent.{
  acting, total, acted, amount, cost_of, seconds_of, specialist_of, value_of, amount-abstains,
  total-acting, IsFree, IsFree-acted, IsCounted, commit_all-IsCounted, IsOffer, counted-totals,
}

-- One eligible choice for each occurrence: a valued one, or one to abstain if no valued choice of
-- the occurrence fits on top of what is used.
pub data Serves (o : PortfolioOptimizer) (u : Used)
    : List Occurrence → List ActionUtility → Type 0 where
  served_all : Serves o u [] []
  serve :
      {rest : List Occurrence} {sel : List ActionUtility} (e : Occurrence) (x : ActionUtility)
      → Memᴰ x (eligible_of e.1)
      → IsOffer x
      → (is_abstain x.action_type ≡ true
          → (y : ActionUtility) → Memᴰ y (eligible_of e.1)
          → is_bid y ≡ true
          → fits o (spend u y) ≡ false)
      → Serves o u rest sel
      → Serves o u (e ∷ rest) (x ∷ sel)

pub record IsServed (o : PortfolioOptimizer) (ordered : List Occurrence) (u : Used) (c : Candidate)
    : Type 0 where
  pub sel : List ActionUtility
  pub serves : Serves o u ordered sel
  pub ties : c.ties ≡ tie_names sel
  pub actions : c.actions ≡ action_names sel
  pub uses : u ≡ usage (acting sel)
  pub objective : c.objective ≡ add_values (pos 0) (acting sel)
  pub feasible : IsFeasible o u
  pub gain : pos 0 ≤ℤ c.objective

-- What each answer of the heuristic says of the portfolio.
abbrev pub HeuristicAnswers :
    PortfolioOptimizer → List Occurrence → Result AllocationError (Used × Candidate) → Type 0
HeuristicAnswers o ordered (ok (u, c)) = IsServed o ordered u c
HeuristicAnswers o ordered (err lacks_abstain) = AnyLacks ordered
HeuristicAnswers o ordered (err incomparable) =
    (selected : Dict ActionUtility) × (bids : List Bid) × (gather ordered [] []
      ≡ ok (selected, bids))
    × (any_incomparable bids ≡ true)
HeuristicAnswers o ordered (err _) = ⊥

Serves-offers :
    {o : PortfolioOptimizer} {u : Used} {part : List Occurrence} {sel : List ActionUtility}
    → Serves o u part sel
    → (x : ActionUtility) → Memᴰ x sel
    → IsOffer x
Serves-offers served_all x m = elim m [ ]
Serves-offers (serve e y k i j rest) x (Memᴰ.head q) = subst IsOffer (sym q) i
Serves-offers (serve e y k i j rest) x (Memᴰ.tail m) = Serves-offers rest x m

-- Entries of one id are one entry.
same_entry :
    (ordered : List Occurrence) (e f : Occurrence)
    → AreUnique ordered
    → Memᴰ e ordered
    → Memᴰ f ordered
    → e.0 ≡ f.0
    → e ≡ f
same_entry [] e f n m k q = elim m [ ]
same_entry (g ∷ ordered) e f (fresh, n) (Memᴰ.head p) (Memᴰ.head r) q = p ∙ sym r
same_entry (g ∷ ordered) e f (fresh, n) (Memᴰ.head p) (Memᴰ.tail k) q =
    elim (fresh f k (ap (λ (z : Occurrence). z.0) (sym p) ∙ q)) [ ]
same_entry (g ∷ ordered) e f (fresh, n) (Memᴰ.tail m) (Memᴰ.head r) q =
    elim (fresh e m (ap (λ (z : Occurrence). z.0) (sym r) ∙ sym q)) [ ]
same_entry (g ∷ ordered) e f (fresh, n) (Memᴰ.tail m) (Memᴰ.tail k) q =
    same_entry ordered e f n m k q

module _ (o : PortfolioOptimizer) (ordered : List Occurrence) (n : AreUnique ordered) where
  module _ (selected : Dict ActionUtility) (bids : List Bid)
      (h : gather ordered [] [] ≡ ok (selected, bids)) where
    gathered : IsGathered ordered [] selected [] bids
    gathered = gather-IsGathered ordered [] selected [] bids n h

    bid_of : (b : Bid) → Memᴰ b bids → (e : Occurrence) × Memᴰ e ordered × IsBidOf e b
    bid_of b m = elim (gathered.only b m) [ inl k ↦ elim k [ ] | inr k ↦ k ]

    abbrev last : Greedy
    last = commit_all o (no_commitment selected) (sort bid_le bids)

    none_used : (most : Option ℕ) → AtMost most 0
    none_used none = tt
    none_used (some m) = omega arith

    last-IsSound : IsSound o last
    last-IsSound =
        commit_all-IsSound o (sort bid_le bids) (no_commitment selected)
          (λ b m. ((bid_of b (mem-sort bid_le b bids m)).2).valued)
          (record {
            feasible = record {
              budget = omega arith;
              personnel = omega arith;
              specialists = none_used o.legacy_specialist_capacity;
            };
            gain = omega arith;
            sold = λ id k. cc k;
          })

    last-IsCounted : IsCounted ordered last
    last-IsCounted =
        commit_all-IsCounted o ordered n (sort bid_le bids) (no_commitment selected)
          (λ b m.
            let (e, k, i) = bid_of b (mem-sort bid_le b bids m) in (e, k, i.same_id, i.valued))
          (record {
            cost = sym (amount-abstains cost_of selected ordered (λ e m. none_acts cost_of e m));
            seconds =
                sym (amount-abstains seconds_of selected ordered (λ e m. none_acts seconds_of e m));
            specialists = sym (
                amount-abstains specialist_of selected ordered
                  (λ e m. none_acts specialist_of e m));
            objective =
                ap (λ k. pos k)
                  (sym (amount-abstains value_of selected ordered (λ e m. none_acts value_of e m)));
            free = λ e m. inr (at_first e m);
          })
      where
        at_first : (e : Occurrence) → Memᴰ e ordered → IsFree selected e.0
        at_first e m =
            let (a, q, k, abstains) = gathered.selects e m in
            record { choice = a; held = q; abstains = abstains }

        none_acts :
            (f : ActionUtility → ℕ) (e : Occurrence)
            → Memᴰ e ordered
            → acted f (get e.0 selected) ≡ 0
        none_acts f e m = IsFree-acted f selected e.0 (at_first e m)

    -- The choice that is selected for an entry is eligible there.
    last-selects :
        (e : Occurrence)
        → Memᴰ e ordered
        → (x : ActionUtility) × (get e.0 last.selected ≡ some x)
          × Memᴰ x (eligible_of e.1)
          × IsOffer x
    last-selects e m =
        let (a, q, ma, abstains) = gathered.selects e m in
        elim ((commit_all-IsSelection o (sort bid_le bids) (no_commitment selected) e.0).is) [
          | inl p ↦ (a, p ∙ q, ma, inl abstains)
          | inr (b, mb, i, p) ↦
              let (f, mf, j) = bid_of b (mem-sort bid_le b bids mb) in
              let same = same_entry ordered f e n mf m (sym j.same_id ∙ i) in
              (
                b.choice,
                p,
                subst (λ (z : Occurrence). Memᴰ b.choice (eligible_of z.1)) same j.eligible,
                inr j.valued,
              )
        ]

    -- It is to abstain only if no valued choice fits.
    last-settles :
        (e : Occurrence) (x y : ActionUtility)
        → Memᴰ e ordered
        → get e.0 last.selected ≡ some x
        → is_abstain x.action_type ≡ true
        → Memᴰ y (eligible_of e.1)
        → is_bid y ≡ true
        → fits o (spend last.used y) ≡ false
    last-settles e x y m p a k t =
        let b : Bid = record { occurrence_id = e.0; choice = y } in
        elim (commit_all-IsSettled o (sort bid_le bids) (no_commitment selected) b
          (sort-mem bid_le b bids (gathered.offers e m y k t))) [
            | inr f ↦ f
            | inl c ↦
                let (u, q, v) = last-IsSound.sold e.0 c in
                let same : x ≡ u = cc (p, q) in
                cc
                  (sym a ∙ ap (λ (z : ActionUtility). is_abstain z.action_type) same ∙ bid-acts u v)
          ]

    last-Serves :
        (part : List Occurrence)
        → ((e : Occurrence) → Memᴰ e part → Memᴰ e ordered)
        → (sel : List ActionUtility) × (chosen_of last.selected part ≡ some sel)
          × Serves o last.used part sel
          × ((f : ActionUtility → ℕ) → amount f last.selected part ≡ total f (acting sel))
    unfolding chosen_of
    last-Serves [] k = ([], refl, served_all, λ f. refl)
    last-Serves (e ∷ part) k =
        let (x, p, m, i) = last-selects e (k e (Memᴰ.head refl)) in
        let (sel, q, s, same) = last-Serves part (λ f j. k f (Memᴰ.tail j)) in
        (
          x ∷ sel,
          rw (chosen_of, p, q) refl,
          serve e x m i (λ a y j t. last-settles e x y (k e (Memᴰ.head refl)) p a j t) s,
          λ f. rw (p, same f) (total-acting f x sel),
        )

    greedy-Answers : HeuristicAnswers o ordered (greedy o ordered selected bids)
    unfolding greedy
    greedy-Answers =
        let (sel, q, s, same) = last-Serves ordered (λ e m. m) in
        let (uses, objective) =
          counted-totals ordered last sel last-IsCounted same (Serves-offers s) in
        elim (Bool-cases (any_incomparable bids)) [
          | inl b ↦ rw b (selected, bids, h, b)
          | inr b ↦
              rw (b, q)
                (record {
                  sel = sel;
                  serves = s;
                  ties = refl;
                  actions = refl;
                  uses = uses;
                  objective = objective;
                  feasible = last-IsSound.feasible;
                  gain = last-IsSound.gain;
                })
        ]

  heuristic-of :
      (r : Result AllocationError (Dict ActionUtility × List Bid))
      → gather ordered [] [] ≡ r
      → HeuristicAnswers o ordered
          (elim r [ err e ↦ err e | ok (selected, bids) ↦ greedy o ordered selected bids ])
  heuristic-of (ok (selected, bids)) h = greedy-Answers selected bids h
  heuristic-of (err e) h =
      let (q, k) = gather-err ordered [] [] e h in
      subst (λ x. HeuristicAnswers o ordered (err x)) (sym q) k

  -- For occurrences with distinct ids, whatever the heuristic answers: one eligible choice for each
  -- occurrence, valued or to abstain, where the amounts used and the objective are the sums over
  -- the choices that do not abstain, these are within the capacities and of no negative value, and
  -- an occurrence abstains only if no valued choice of it still fits; a lack of abstain only where
  -- an occurrence has none; and otherwise candidates that cannot be compared.
  pub heuristic_state-Answers : HeuristicAnswers o ordered (heuristic_state o ordered)
  unfolding heuristic_state
  heuristic_state-Answers = heuristic-of (gather ordered [] []) refl
