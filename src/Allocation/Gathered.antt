-- ===== src/Allocation/Gathered.antt =====
-- optimization/solver.py: what the first loop of the heuristic leaves for the second.
use mathlib.Core.List.{Memᴰ}
use mathlib.Core.Path.{subst}
use inforsight.Common.{
  String, true, ◌≡◌, ◌≢◌, refl, sym, ap, ◌∙◌, ◌⊎◌, inl, inr, Bool-cases, Option, none, some, List,
  [], ◌∷◌, ◌++◌, eq_iff, arith,
}
use inforsight.Common.Dict.{Dict, get, put, get-put, get-put_self}
use inforsight.Common.Members.{mem-append, append-left, append-right}
use inforsight.Common.Result.{ok, err}
use inforsight.Allocation.Models.{ActionUtility, AllocationError, lacks_abstain}
use inforsight.Allocation.Exact.{is_abstain}
use inforsight.Allocation.Heuristic.{
  Occurrence, Bid, eligible_of, first_abstain, is_bid, bids_of, gather,
}

-- No two occurrences have the same id.
abbrev pub AreUnique : List Occurrence → Type 0
AreUnique [] = Unit
AreUnique (e ∷ rest) = ((f : Occurrence) → Memᴰ f rest → e.0 ≢ f.0) × AreUnique rest

-- An occurrence has no eligible way to abstain.
abbrev pub AnyLacks : List Occurrence → Type 0
AnyLacks [] = ⊥
AnyLacks (e ∷ rest) = (first_abstain (eligible_of e.1) ≡ none) ⊎ AnyLacks rest

-- The bid is a valued choice of the occurrence.
pub record IsBidOf (e : Occurrence) (b : Bid) : Type 0 where
  pub same_id : b.occurrence_id ≡ e.0
  pub eligible : Memᴰ b.choice (eligible_of e.1)
  pub valued : is_bid b.choice ≡ true

pub first_abstain-mem :
    (us : List ActionUtility) (a : ActionUtility) → first_abstain us ≡ some a → Memᴰ a us
unfolding first_abstain
first_abstain-mem [] a h = cc
first_abstain-mem (u ∷ us) a h = elim (Bool-cases (is_abstain u.action_type)) [
  | inl b ↦ Memᴰ.head (sym (cc (rw b at h)))
  | inr b ↦ Memᴰ.tail (first_abstain-mem us a (rw b at h))
]

first_abstain-abstains :
    (us : List ActionUtility) (a : ActionUtility)
    → first_abstain us ≡ some a
    → is_abstain a.action_type ≡ true
unfolding first_abstain
first_abstain-abstains [] a h = cc
first_abstain-abstains (u ∷ us) a h = elim (Bool-cases (is_abstain u.action_type)) [
  | inl b ↦
      let same : u ≡ a = cc (rw b at h) in
      subst (λ (z : ActionUtility). is_abstain z.action_type ≡ true) same b
  | inr b ↦ first_abstain-abstains us a (rw b at h)
]

bids_of-mem :
    (e : Occurrence) (us : List ActionUtility) (b : Bid)
    → ((u : ActionUtility) → Memᴰ u us → Memᴰ u (eligible_of e.1))
    → Memᴰ b (bids_of e.0 us)
    → IsBidOf e b
unfolding bids_of
bids_of-mem e [] b k m = elim m [ ]
bids_of-mem e (u ∷ us) b k m = elim (Bool-cases (is_bid u)) [
  | inr f ↦ bids_of-mem e us b (λ v j. k v (Memᴰ.tail j)) (rw f at m)
  | inl t ↦ elim (rw t at m) [
    | Memᴰ.tail j ↦ bids_of-mem e us b (λ v i. k v (Memᴰ.tail i)) j
    | Memᴰ.head q ↦
        subst (IsBidOf e) (sym q)
          (record { same_id = refl; eligible = k u (Memᴰ.head refl); valued = t })
  ]
]

bids_of-self :
    (id : String) (us : List ActionUtility) (u : ActionUtility)
    → Memᴰ u us
    → is_bid u ≡ true
    → Memᴰ (record { occurrence_id = id; choice = u }) (bids_of id us)
unfolding bids_of
bids_of-self id [] u m t = elim m [ ]
bids_of-self id (v ∷ us) u m t = elim (Bool-cases (is_bid v)) [
  | inl b ↦ rw b (elim m [
    | Memᴰ.head q ↦ Memᴰ.head (ap (λ w. record { occurrence_id = id; choice = w }) q)
    | Memᴰ.tail k ↦ Memᴰ.tail (bids_of-self id us u k t)
  ])
  | inr b ↦ rw b (elim m [
    | Memᴰ.head q ↦ absurd (cc (sym b ∙ ap is_bid (sym q) ∙ t))
    | Memᴰ.tail k ↦ bids_of-self id us u k t
  ])
]
  where
    absurd : {A : Type 0} → ⊥ → A
    absurd x = elim x [ ]

-- What the loop returns, for the occurrences that it went through.
pub record IsGathered (ordered : List Occurrence) (from to : Dict ActionUtility)
    (before after : List Bid) : Type 0 where
  pub selects :
      (e : Occurrence)
      → Memᴰ e ordered
      → (a : ActionUtility) × (get e.0 to ≡ some a)
        × Memᴰ a (eligible_of e.1)
        × (is_abstain a.action_type ≡ true)
  pub keeps :
      (id : String) → ((e : Occurrence) → Memᴰ e ordered → e.0 ≢ id) → get id to ≡ get id from
  pub offered : (b : Bid) → Memᴰ b before → Memᴰ b after
  pub offers :
      (e : Occurrence)
      → Memᴰ e ordered
      → (u : ActionUtility) → Memᴰ u (eligible_of e.1)
      → is_bid u ≡ true
      → Memᴰ (record { occurrence_id = e.0; choice = u }) after
  pub only :
      (b : Bid) → Memᴰ b after → Memᴰ b before ⊎ ((e : Occurrence) × Memᴰ e ordered × IsBidOf e b)

gather-cons :
    (e : Occurrence) (rest : List Occurrence) (from to : Dict ActionUtility)
    (before after : List Bid) (r : Option ActionUtility)
    → first_abstain (eligible_of e.1) ≡ r
    → gather (e ∷ rest) from before ≡ ok (to, after)
    → (a : ActionUtility) × Memᴰ a (eligible_of e.1)
      × (is_abstain a.action_type ≡ true)
      × (gather rest (put e.0 a from) (before ++ bids_of e.0 (eligible_of e.1)) ≡ ok (to, after))
unfolding gather
gather-cons e rest from to before after none q h = cc (rw (gather, q) at h)
gather-cons e rest from to before after (some a) q h = (
  a,
  first_abstain-mem (eligible_of e.1) a q,
  first_abstain-abstains (eligible_of e.1) a q,
  rw (gather, q) at h,
)

pub gather-IsGathered :
    (ordered : List Occurrence) (from to : Dict ActionUtility) (before after : List Bid)
    → AreUnique ordered
    → gather ordered from before ≡ ok (to, after)
    → IsGathered ordered from to before after
unfolding gather
gather-IsGathered [] from to before after n h =
    let s : from ≡ to = cc h in
    let t : before ≡ after = cc h in
    record {
      selects = λ e m. elim m [ ];
      keeps = λ id k. ap (get id) (sym s);
      offered = λ b m. subst (λ z. Memᴰ b z) t m;
      offers = λ e m. elim m [ ];
      only = λ b m. inl (subst (λ z. Memᴰ b z) (sym t) m);
    }
gather-IsGathered (e ∷ rest) from to before after (fresh, n) h =
    let (a, ma, abstains, h') =
      gather-cons e rest from to before after (first_abstain (eligible_of e.1)) refl h in
    let g =
      gather-IsGathered rest (put e.0 a from) to (before ++ bids_of e.0 (eligible_of e.1)) after n
        h' in
    record {
      selects = λ f m. elim m [
        | Memᴰ.tail k ↦ g.selects f k
        | Memᴰ.head q ↦
            subst
              (λ (z : Occurrence).
                (b : ActionUtility) × (get z.0 to ≡ some b)
                × Memᴰ b (eligible_of z.1)
                × (is_abstain b.action_type ≡ true))
              (sym q)
              (a, g.keeps e.0 (λ z k p. fresh z k (sym p)) ∙ get-put_self e.0 a from, ma, abstains)
      ];
      keeps = λ id k.
          g.keeps id (λ f m. k f (Memᴰ.tail m))
          ∙ put_elsewhere id e.0 a from (k e (Memᴰ.head refl));
      offered = λ b m. g.offered b (append-left b before (bids_of e.0 (eligible_of e.1)) m);
      offers = λ f m u k t. elim m [
        | Memᴰ.tail j ↦ g.offers f j u k t
        | Memᴰ.head q ↦
            let same = ap (λ (z : Occurrence). z.0) q in
            subst (λ id. Memᴰ (record { occurrence_id = id; choice = u }) after) (sym same)
              (g.offered (record { occurrence_id = e.0; choice = u })
                (append-right (record { occurrence_id = e.0; choice = u }) before
                  (bids_of e.0 (eligible_of e.1))
                  (bids_of-self e.0 (eligible_of e.1) u
                    (subst (λ (z : Occurrence). Memᴰ u (eligible_of z.1)) q k) t)))
      ];
      only = λ b m. elim (g.only b m) [
        | inr (f, k, i) ↦ inr (f, Memᴰ.tail k, i)
        | inl k ↦ elim (mem-append b before (bids_of e.0 (eligible_of e.1)) k) [
          | inl j ↦ inl j
          | inr j ↦ inr (e, Memᴰ.head refl, bids_of-mem e (eligible_of e.1) b (λ v i. i) j)
        ]
      ];
    }
  where
    put_elsewhere :
        (id k : String) (a : ActionUtility) (d : Dict ActionUtility)
        → k ≢ id
        → get id (put k a d) ≡ get id d
    put_elsewhere id k a d n = ground (arith, get-put k id a d, eq_iff k id)

-- The loop fails only where an occurrence has no way to abstain.
pub gather-err :
    (ordered : List Occurrence) (from : Dict ActionUtility) (before : List Bid)
    (x : AllocationError)
    → gather ordered from before ≡ err x
    → (x ≡ lacks_abstain) × AnyLacks ordered
unfolding gather
gather-err [] from before x h = cc
gather-err (e ∷ rest) from before x h =
    gather_step (first_abstain (eligible_of e.1)) refl
      (λ a h'. gather-err rest (put e.0 a from) (before ++ bids_of e.0 (eligible_of e.1)) x h')
  where
    gather_step :
        (r : Option ActionUtility)
        → first_abstain (eligible_of e.1) ≡ r
        → ((a : ActionUtility)
            → gather rest (put e.0 a from) (before ++ bids_of e.0 (eligible_of e.1)) ≡ err x
            → (x ≡ lacks_abstain) × AnyLacks rest)
        → (x ≡ lacks_abstain) × AnyLacks (e ∷ rest)
    gather_step none q k = (cc (rw (gather, q) at h), inl q)
    gather_step (some a) q k = let (same, j) = k a (rw (gather, q) at h) in (same, inr j)
