-- ===== src/Allocation/Spent.antt =====
-- optimization/solver.py: the running totals of the heuristic against the choices it has selected.
use mathlib.Core.List.{Memᴰ}
use mathlib.Core.Path.{subst}
use inforsight.Common.{
  ℕ, ◌+◌, String, true, false, not, ◌≡◌, ◌≢◌, refl, sym, ap, ◌∙◌, ◌⊎◌, inl, inr, Bool-cases, Option,
  none, some, List, [], ◌∷◌, any, str_eq, eq_iff, arith, if◌then◌else◌,
}
use inforsight.Common.Int.{ℤ, pos, pos_part, ◌+ℤ◌, ltℤ}
use inforsight.Common.Dict.{Dict, get, put, get-put}
use inforsight.Common.Members.{filtered}
use inforsight.Allocation.Models.{ActionUtility, PortfolioOptimizer, is_specialist, one_if}
use inforsight.Allocation.Exact.{is_abstain}
use inforsight.Allocation.Selections.{
  total_cost, total_seconds, total_specialists, add_values, usage,
}
use inforsight.Allocation.Heuristic.{Occurrence, Bid, Greedy, is_bid, commit, commit_all}
use inforsight.Allocation.Gathered.{AreUnique}
use inforsight.Allocation.Committed.{
  IsCommitted, Round, taken, full, bought, commit-Round, bid-acts, bid-valued,
}

-- The choices that are not to abstain.
abbrev pub acting : List ActionUtility → List ActionUtility
acting sel = filtered (λ x. not (is_abstain x.action_type)) sel

abbrev pub total : (ActionUtility → ℕ) → List ActionUtility → ℕ
total f [] = 0
total f (x ∷ sel) = f x + total f sel

-- What a selected choice adds to a sum: nothing where it is to abstain.
abbrev pub acted : (ActionUtility → ℕ) → Option ActionUtility → ℕ
acted f none = 0
acted f (some x) = if is_abstain x.action_type then 0 else f x

-- The sum over the choices selected for the occurrences.
abbrev pub amount : (ActionUtility → ℕ) → Dict ActionUtility → List Occurrence → ℕ
amount f selected [] = 0
amount f selected (e ∷ rest) = acted f (get e.0 selected) + amount f selected rest

abbrev pub cost_of : ActionUtility → ℕ
cost_of x = pos_part x.direct_cost_usd_micros

abbrev pub seconds_of : ActionUtility → ℕ
seconds_of x = pos_part x.personnel_seconds

abbrev pub specialist_of : ActionUtility → ℕ
specialist_of x = one_if (is_specialist x)

abbrev pub value_of : ActionUtility → ℕ
value_of x = pos_part x.net_expected_value_usd_micros

get-put_other :
    (id k : String) (x : ActionUtility) (d : Dict ActionUtility)
    → k ≢ id
    → get k (put id x d) ≡ get k d
get-put_other id k x d n = ground (arith, get-put id k x d, eq_iff id k)

acted-acts :
    (f : ActionUtility → ℕ) (x : ActionUtility)
    → is_abstain x.action_type ≡ false
    → acted f (some x) ≡ f x
acted-acts f x h = rw h refl

module _ (f : ActionUtility → ℕ) where
  amount-elsewhere :
      (id : String) (x : ActionUtility) (d : Dict ActionUtility) (part : List Occurrence)
      → ((e : Occurrence) → Memᴰ e part → e.0 ≢ id)
      → amount f (put id x d) part ≡ amount f d part
  amount-elsewhere id x d [] k = refl
  amount-elsewhere id x d (e ∷ part) k =
      rw (get-put_other id e.0 x d (k e (Memᴰ.head refl))) (
        ap (λ n. acted f (get e.0 d) + n) (amount-elsewhere id x d part (λ g m. k g (Memᴰ.tail m))))

  -- A choice that is selected for an occurrence that had added nothing adds its own.
  pub amount-put :
      (e : Occurrence) (x : ActionUtility) (d : Dict ActionUtility) (part : List Occurrence)
      → AreUnique part
      → Memᴰ e part
      → acted f (get e.0 d) ≡ 0
      → is_abstain x.action_type ≡ false
      → amount f (put e.0 x d) part ≡ amount f d part + f x
  amount-put e x d [] n m free acts = elim m [ ]
  amount-put e x d (g ∷ part) (fresh, n) (Memᴰ.tail m) free acts =
      let rest = amount-put e x d part n m free acts in
      rw (get-put_other e.0 g.0 x d (fresh e m)) (omega (arith, rest))
  amount-put e x d (g ∷ part) (fresh, n) (Memᴰ.head q) free acts =
      let same : g.0 ≡ e.0 = ap (λ (z : Occurrence). z.0) (sym q) in
      let rest = amount-elsewhere e.0 x d part (λ h m p. fresh h m (same ∙ sym p)) in
      let own : get g.0 (put e.0 x d) ≡ some x =
        ground (arith, get-put e.0 g.0 x d, eq_iff e.0 g.0, same) in
      let before : acted f (get g.0 d) ≡ 0 = subst (λ i. acted f (get i d) ≡ 0) (sym same) free in
      rw own (omega (arith, rest, before, acted-acts f x acts))

  -- Where every occurrence is to abstain the sum is nothing.
  pub amount-abstains :
      (d : Dict ActionUtility) (part : List Occurrence)
      → ((e : Occurrence) → Memᴰ e part → acted f (get e.0 d) ≡ 0)
      → amount f d part ≡ 0
  amount-abstains d [] k = refl
  amount-abstains d (e ∷ part) k =
      let rest = amount-abstains d part (λ g m. k g (Memᴰ.tail m)) in
      omega (arith, rest, k e (Memᴰ.head refl))

  pub total-acting :
      (x : ActionUtility) (sel : List ActionUtility)
      → acted f (some x) + total f (acting sel) ≡ total f (acting (x ∷ sel))
  total-acting x sel = elim (Bool-cases (is_abstain x.action_type)) [
    | inl b ↦ rw b (omega arith)
    | inr b ↦ rw b refl
  ]

-- The occurrence has nothing but its way to abstain.
pub record IsFree (d : Dict ActionUtility) (id : String) : Type 0 where
  pub choice : ActionUtility
  pub held : get id d ≡ some choice
  pub abstains : is_abstain choice.action_type ≡ true

pub IsFree-acted :
    (f : ActionUtility → ℕ) (d : Dict ActionUtility) (id : String)
    → IsFree d id
    → acted f (get id d) ≡ 0
IsFree-acted f d id r = rw (r.held, r.abstains) refl

-- The totals are those of the selected choices, and an occurrence without a bid abstains.
pub record IsCounted (ordered : List Occurrence) (g : Greedy) : Type 0 where
  pub cost : g.used.cost ≡ amount cost_of g.selected ordered
  pub seconds : g.used.seconds ≡ amount seconds_of g.selected ordered
  pub specialists : g.used.specialists ≡ amount specialist_of g.selected ordered
  pub objective : g.objective ≡ pos (amount value_of g.selected ordered)
  pub free : (e : Occurrence) → Memᴰ e ordered → IsCommitted g e.0 ⊎ IsFree g.selected e.0

raise_pos : (n : ℕ) (v : ℤ) → ltℤ (pos 0) v ≡ true → pos n +ℤ v ≡ pos (n + pos_part v)
unfolding ◌+ℤ◌
raise_pos n v h = ground arith

module _ (o : PortfolioOptimizer) (ordered : List Occurrence) (n : AreUnique ordered) where
  Round-IsCounted :
      {g : Greedy} (b : Bid) {h : Greedy} (e : Occurrence)
      → Memᴰ e ordered
      → b.occurrence_id ≡ e.0
      → is_bid b.choice ≡ true
      → Round o g b h
      → IsCounted ordered g
      → IsCounted ordered h
  Round-IsCounted b e m i t (taken _) s = s
  Round-IsCounted b e m i t (full _) s = s
  Round-IsCounted {g} b e m i t (bought c f) s =
      let free : IsFree g.selected e.0 = elim (s.free e m) [
        | inr r ↦ r
        | inl k ↦ cc (sym c ∙ ap (λ id. any (str_eq id) g.committed) i ∙ k)
      ] in
      let more : (w : ActionUtility → ℕ)
          → amount w (put b.occurrence_id b.choice g.selected) ordered
            ≡ amount w g.selected ordered + w b.choice =
        λ w.
          subst
            (λ id.
              amount w (put id b.choice g.selected) ordered
              ≡ amount w g.selected ordered + w b.choice)
            (sym i)
            (amount-put w e b.choice g.selected ordered n m (IsFree-acted w g.selected e.0 free)
              (bid-acts b.choice t)) in
      record {
        cost = ap (λ k. k + cost_of b.choice) s.cost ∙ sym (more cost_of);
        seconds = ap (λ k. k + seconds_of b.choice) s.seconds ∙ sym (more seconds_of);
        specialists = ap (λ k. k + specialist_of b.choice) s.specialists ∙ sym (more specialist_of);
        objective =
            ap (λ v. v +ℤ b.choice.net_expected_value_usd_micros) s.objective
            ∙ raise_pos (amount value_of g.selected ordered) b.choice.net_expected_value_usd_micros
                (bid-valued b.choice t)
            ∙ ap (λ k. pos k) (sym (more value_of));
        free = λ d k. elim (s.free d k) [
          | inl q ↦ inl (ground (arith, q))
          | inr r ↦ elim (Bool-cases (str_eq b.occurrence_id d.0)) [
            | inl p ↦ inl (ground (arith, p, eq_iff b.occurrence_id d.0, eq_iff d.0 d.0))
            | inr p ↦ inr (record {
              choice = r.choice;
              held = rw (get-put b.occurrence_id d.0 b.choice g.selected, p) r.held;
              abstains = r.abstains;
            })
          ]
        ];
      }

  -- The loop over bids for the occurrences keeps the totals right.
  pub commit_all-IsCounted :
      (bids : List Bid) (g : Greedy)
      → ((b : Bid)
          → Memᴰ b bids
          → (e : Occurrence) × Memᴰ e ordered × (b.occurrence_id ≡ e.0) × (is_bid b.choice ≡ true))
      → IsCounted ordered g
      → IsCounted ordered (commit_all o g bids)
  unfolding commit_all
  commit_all-IsCounted [] g k s = s
  commit_all-IsCounted (b ∷ bids) g k s =
      let (e, m, i, t) = k b (Memᴰ.head refl) in
      commit_all-IsCounted bids (commit o g b) (λ c j. k c (Memᴰ.tail j))
        (Round-IsCounted b e m i t (commit-Round o g b) s)

total-usage :
    (sel : List ActionUtility)
    → (total cost_of sel ≡ total_cost sel)
      × (total seconds_of sel ≡ total_seconds sel)
      × (total specialist_of sel ≡ total_specialists sel)
total-usage [] = (refl, refl, refl)
total-usage (x ∷ sel) =
    let (c, s, l) = total-usage sel in
    (ap (λ n. cost_of x + n) c, ap (λ n. seconds_of x + n) s, ap (λ n. specialist_of x + n) l)

-- A choice is to abstain, or is a bid.
abbrev pub IsOffer : ActionUtility → Type 0
IsOffer x = (is_abstain x.action_type ≡ true) ⊎ (is_bid x ≡ true)

total-values :
    (sel : List ActionUtility) (n : ℕ)
    → ((x : ActionUtility) → Memᴰ x sel → IsOffer x)
    → add_values (pos n) (acting sel) ≡ pos (n + total value_of (acting sel))
total-values [] n k = ap (λ m. pos m) (omega arith)
total-values (x ∷ sel) n k = elim (k x (Memᴰ.head refl)) [
  | inl b ↦ rw b (total-values sel n (λ y m. k y (Memᴰ.tail m)))
  | inr t ↦
      let rest = total-values sel (n + value_of x) (λ y m. k y (Memᴰ.tail m)) in
      rw (bid-acts x t, raise_pos n x.net_expected_value_usd_micros (bid-valued x t), rest)
        (ap (λ m. pos m) (omega arith))
]

-- The totals of a selection that the sums are those of.
pub counted-totals :
    (ordered : List Occurrence) (g : Greedy) (sel : List ActionUtility)
    → IsCounted ordered g
    → ((f : ActionUtility → ℕ) → amount f g.selected ordered ≡ total f (acting sel))
    → ((x : ActionUtility) → Memᴰ x sel → IsOffer x)
    → (g.used ≡ usage (acting sel)) × (g.objective ≡ add_values (pos 0) (acting sel))
counted-totals ordered g sel s same offers =
    let (c, t, l) = total-usage (acting sel) in
    let cost = s.cost ∙ same cost_of ∙ c in
    let seconds = s.seconds ∙ same seconds_of ∙ t in
    let specialists = s.specialists ∙ same specialist_of ∙ l in
    (
      (λ i. record { cost = cost i; seconds = seconds i; specialists = specialists i }),
      s.objective ∙ ap (λ n. pos n) (same value_of ∙ omega arith) ∙ sym (total-values sel 0 offers),
    )
