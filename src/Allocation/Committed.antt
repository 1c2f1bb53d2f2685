-- ===== src/Allocation/Committed.antt =====
-- optimization/solver.py: what the second loop of the heuristic keeps.
use mathlib.Core.List.{Memᴰ}
use mathlib.Core.Path.{subst}
use inforsight.Common.{
  String, Bool, true, false, not, ◌&&◌, ◌≡◌, refl, sym, ◌∙◌, ◌⊎◌, inl, inr, Bool-cases, some, List,
  [], ◌∷◌, any, str_eq, eq_iff, arith,
}
use inforsight.Common.Int.{ℤ, pos, ◌+ℤ◌, ◌≤ℤ◌, ltℤ, +ℤ_parts}
use inforsight.Common.Dict.{Dict, get, put, get-put}
use inforsight.Allocation.Models.{ActionUtility, PortfolioOptimizer, is_nonnegative}
use inforsight.Allocation.Exact.{is_abstain, Used, spend, fits}
use inforsight.Allocation.Selections.{IsFeasible}
use inforsight.Allocation.Totals.{plus, fits-IsFeasible, spend-fits}
use inforsight.Allocation.Heuristic.{Bid, Greedy, is_bid, commit, commit_all}

-- The occurrence has one of its bids.
abbrev pub IsCommitted : Greedy → String → Type 0
IsCommitted g id = any (str_eq id) g.committed ≡ true

-- What a selection of an occurrence may be: what it was, or a bid for it that is in the list.
pub record IsSelection (bids : List Bid) (before : Dict ActionUtility) (g : Greedy) (id : String)
    : Type 0 where
  pub is :
      (get id g.selected ≡ get id before)
      ⊎ ((b : Bid) × Memᴰ b bids × (b.occurrence_id ≡ id) × (get id g.selected ≡ some b.choice))

pub record IsSound (o : PortfolioOptimizer) (g : Greedy) : Type 0 where
  pub feasible : IsFeasible o g.used
  pub gain : pos 0 ≤ℤ g.objective
  pub sold :
      (id : String)
      → IsCommitted g id
      → (u : ActionUtility) × (get id g.selected ≡ some u) × (is_bid u ≡ true)

both_tests : (a l n : Bool) → not a && (l && n) ≡ true → (a ≡ false) × (l ≡ true)
both_tests a l n q = ground arith

pub bid-valued :
    (u : ActionUtility) → is_bid u ≡ true → ltℤ (pos 0) u.net_expected_value_usd_micros ≡ true
unfolding is_bid
bid-valued u h =
    (both_tests (is_abstain u.action_type) (ltℤ (pos 0) u.net_expected_value_usd_micros)
      (is_nonnegative u.direct_cost_usd_micros && is_nonnegative u.personnel_seconds) h).1

pub bid-acts : (u : ActionUtility) → is_bid u ≡ true → is_abstain u.action_type ≡ false
unfolding is_bid
bid-acts u h =
    (both_tests (is_abstain u.action_type) (ltℤ (pos 0) u.net_expected_value_usd_micros)
      (is_nonnegative u.direct_cost_usd_micros && is_nonnegative u.personnel_seconds) h).0

bid-gain :
    (u : ActionUtility) (v : ℤ)
    → is_bid u ≡ true
    → pos 0 ≤ℤ v
    → pos 0 ≤ℤ v +ℤ u.net_expected_value_usd_micros
bid-gain u v h k =
    let p = bid-valued u h in ground (arith, +ℤ_parts v u.net_expected_value_usd_micros)

-- The three ways of one round.
pub data Round (o : PortfolioOptimizer) (g : Greedy) (b : Bid) : Greedy → Type 0 where
  taken : IsCommitted g b.occurrence_id → Round o g b g
  full : fits o (spend g.used b.choice) ≡ false → Round o g b g
  bought :
      any (str_eq b.occurrence_id) g.committed ≡ false
      → fits o (spend g.used b.choice) ≡ true
      → Round o g b (record {
        selected = put b.occurrence_id b.choice g.selected;
        committed = b.occurrence_id ∷ g.committed;
        used = spend g.used b.choice;
        objective = g.objective +ℤ b.choice.net_expected_value_usd_micros;
      })

pub commit-Round : (o : PortfolioOptimizer) (g : Greedy) (b : Bid) → Round o g b (commit o g b)
unfolding commit
commit-Round o g b = elim (Bool-cases (any (str_eq b.occurrence_id) g.committed)) [
  | inl c ↦ rw c (taken c)
  | inr c ↦ elim (Bool-cases (fits o (spend g.used b.choice))) [
    | inl f ↦ rw (c, f) (bought c f)
    | inr f ↦ rw (c, f) (full f)
  ]
]

module _ (o : PortfolioOptimizer) where
  -- What fits after a choice fits before it.
  fits-before :
      (u : Used) (x y : ActionUtility)
      → fits o (spend (spend u x) y) ≡ true
      → fits o (spend u y) ≡ true
  fits-before u x y h =
      spend-fits o u y (x ∷ [])
        (subst (IsFeasible o) swapped (fits-IsFeasible o (spend (spend u x) y) h))
    where
      swapped : spend (spend u x) y ≡ plus u (y ∷ x ∷ [])
      swapped = ground arith

  -- A bid is settled: its occurrence has one, or it does not fit any more.
  abbrev pub IsSettled : Greedy → Bid → Type 0
  IsSettled g b = IsCommitted g b.occurrence_id ⊎ (fits o (spend g.used b.choice) ≡ false)

  Round-IsSettled : {g : Greedy} (b : Bid) {h : Greedy} → Round o g b h → IsSettled h b
  Round-IsSettled b (taken c) = inl c
  Round-IsSettled b (full f) = inr f
  Round-IsSettled b (bought n f) = inl (ground (arith, eq_iff b.occurrence_id b.occurrence_id))

  Round-keeps :
      {g : Greedy} (b c : Bid) {h : Greedy} → Round o g b h → IsSettled g c → IsSettled h c
  Round-keeps b c (taken _) s = s
  Round-keeps b c (full _) s = s
  Round-keeps {g} b c (bought n f) (inl k) = inl (ground (arith, k))
  Round-keeps {g} b c (bought n f) (inr k) =
      inr (elim (Bool-cases (fits o (spend (spend g.used b.choice) c.choice))) [
        | inr n ↦ n
        | inl y ↦ cc (sym k ∙ fits-before g.used b.choice c.choice y)
      ])

  commit_all-keeps :
      (bids : List Bid) (g : Greedy) (c : Bid) → IsSettled g c → IsSettled (commit_all o g bids) c
  unfolding commit_all
  commit_all-keeps [] g c s = s
  commit_all-keeps (b ∷ bids) g c s =
      commit_all-keeps bids (commit o g b) c (Round-keeps b c (commit-Round o g b) s)

  -- After the loop every bid is settled.
  pub commit_all-IsSettled :
      (bids : List Bid) (g : Greedy) (c : Bid) → Memᴰ c bids → IsSettled (commit_all o g bids) c
  unfolding commit_all
  commit_all-IsSettled [] g c m = elim m [ ]
  commit_all-IsSettled (b ∷ bids) g c (Memᴰ.tail m) = commit_all-IsSettled bids (commit o g b) c m
  commit_all-IsSettled (b ∷ bids) g c (Memᴰ.head q) =
      commit_all-keeps bids (commit o g b) c
        (subst (IsSettled (commit o g b)) (sym q) (Round-IsSettled b (commit-Round o g b)))

  -- A round on a valued bid keeps what is sound.
  Round-IsSound :
      {g : Greedy} (b : Bid) {h : Greedy}
      → is_bid b.choice ≡ true
      → Round o g b h
      → IsSound o g
      → IsSound o h
  Round-IsSound b t (taken _) s = s
  Round-IsSound b t (full _) s = s
  Round-IsSound {g} b t (bought n f) s = record {
    feasible = fits-IsFeasible o (spend g.used b.choice) f;
    gain = bid-gain b.choice g.objective t s.gain;
    sold = λ id k. elim (Bool-cases (str_eq b.occurrence_id id)) [
      | inl e ↦ (b.choice, rw (get-put b.occurrence_id id b.choice g.selected, e) refl, t)
      | inr e ↦
          let (u, p, q) =
            s.sold id (ground (arith, k, eq_iff b.occurrence_id id, eq_iff id b.occurrence_id)) in
          (u, rw (get-put b.occurrence_id id b.choice g.selected, e) p, q)
    ];
  }

  pub commit_all-IsSound :
      (bids : List Bid) (g : Greedy)
      → ((b : Bid) → Memᴰ b bids → is_bid b.choice ≡ true)
      → IsSound o g
      → IsSound o (commit_all o g bids)
  unfolding commit_all
  commit_all-IsSound [] g t s = s
  commit_all-IsSound (b ∷ bids) g t s =
      commit_all-IsSound bids (commit o g b) (λ c m. t c (Memᴰ.tail m))
        (Round-IsSound b (t b (Memᴰ.head refl)) (commit-Round o g b) s)

  -- What is selected at the end was so at the start, or is a bid of the list.
  pub commit_all-IsSelection :
      (bids : List Bid) (g : Greedy) (id : String)
      → IsSelection bids g.selected (commit_all o g bids) id
  unfolding commit_all
  commit_all-IsSelection [] g id = record { is = inl refl }
  commit_all-IsSelection (b ∷ bids) g id =
      elim ((commit_all-IsSelection bids (commit o g b) id).is) [
        | inr (c, m, q, p) ↦ record { is = inr (c, Memᴰ.tail m, q, p) }
        | inl p ↦ one_round (commit-Round o g b) p
      ]
    where
      one_round :
          {h l : Greedy}
          → Round o g b h
          → get id l.selected ≡ get id h.selected
          → IsSelection (b ∷ bids) g.selected l id
      one_round (taken _) p = record { is = inl p }
      one_round (full _) p = record { is = inl p }
      one_round (bought n f) p = elim (Bool-cases (str_eq b.occurrence_id id)) [
        | inl e ↦ record {
          is = inr (
            b,
            Memᴰ.head refl,
            ground (arith, eq_iff b.occurrence_id id),
            p ∙ rw (get-put b.occurrence_id id b.choice g.selected, e) refl,
          );
        }
        | inr e ↦ record {
          is = inl (p ∙ rw (get-put b.occurrence_id id b.choice g.selected, e) refl);
        }
      ]
