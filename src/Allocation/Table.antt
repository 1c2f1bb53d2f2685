-- ===== src/Allocation/Table.antt =====
-- optimization/solver.py: what the loops of the dynamic program leave in its table.
use mathlib.Core.List.{Memᴰ}
use mathlib.Core.Path.{subst}
use inforsight.Common.{true, ◌≡◌, refl, sym, ap, inl, inr, Bool-cases, List, [], ◌∷◌, arith}
use inforsight.Allocation.Models.{ActionUtility, PortfolioOptimizer}
use inforsight.Allocation.Exact.{
  Used, Candidate, States, same_used, improves, offer, spend, extend, fits, try_choices, try_states,
}
use inforsight.Allocation.Selections.{
  NoWorse, NoWorse-refl, NoWorse-trans, improves-NoWorse, keeps-NoWorse,
}

-- The table has a candidate for what is used that is no worse.
pub record Covers (states : States) (u : Used) (c : Candidate) : Type 0 where
  pub held : Candidate
  pub member : Memᴰ (u, held) states
  pub no_worse : NoWorse held c

pub same_used-eq : (u v : Used) → same_used u v ≡ true → u ≡ v
same_used-eq u v h = ground arith

Covers-tail :
    {states : States} {u : Used} {c : Candidate} (s : Used × Candidate)
    → Covers states u c
    → Covers (s ∷ states) u c
Covers-tail s h = record { held = h.held; member = Memᴰ.tail h.member; no_worse = h.no_worse }

-- An offer is covered, and what was covered stays so.
offer-Covers_self : (u : Used) (c : Candidate) (states : States) → Covers (offer u c states) u c
unfolding offer
offer-Covers_self u c [] = record { held = c; member = Memᴰ.head refl; no_worse = NoWorse-refl c }
offer-Covers_self u c ((v, d) ∷ states) = elim (Bool-cases (same_used v u)) [
  | inr b ↦ rw b (Covers-tail (v, d) (offer-Covers_self u c states))
  | inl b ↦ elim (Bool-cases (improves c d)) [
    | inl i ↦
        rw (b, i)
          (record {
            held = c;
            member = Memᴰ.head (ap (λ w. (w, c)) (sym (same_used-eq v u b)));
            no_worse = NoWorse-refl c;
          })
    | inr i ↦
        rw (b, i)
          (record {
            held = d;
            member = Memᴰ.head (ap (λ w. (w, d)) (sym (same_used-eq v u b)));
            no_worse = keeps-NoWorse c d i;
          })
  ]
]

offer-Covers :
    (u : Used) (c : Candidate) (states : States) (w : Used) (e : Candidate)
    → Memᴰ (w, e) states
    → Covers (offer u c states) w e
unfolding offer
offer-Covers u c [] w e m = elim m [ ]
offer-Covers u c ((v, d) ∷ states) w e m = elim (Bool-cases (same_used v u)) [
  | inr b ↦ rw b (elim m [
    | Memᴰ.head q ↦ record { held = e; member = Memᴰ.head q; no_worse = NoWorse-refl e }
    | Memᴰ.tail k ↦ Covers-tail (v, d) (offer-Covers u c states w e k)
  ])
  | inl b ↦ elim m [
    | Memᴰ.tail k ↦ rw b (record { held = e; member = Memᴰ.tail k; no_worse = NoWorse-refl e })
    | Memᴰ.head q ↦ elim (Bool-cases (improves c d)) [
      | inr i ↦ rw (b, i) (record { held = e; member = Memᴰ.head q; no_worse = NoWorse-refl e })
      | inl i ↦
          rw (b, i)
            (record {
              held = c;
              member = Memᴰ.head (ap (λ (s : Used × Candidate). (s.0, c)) q);
              no_worse =
                  subst (λ z. NoWorse c z) (sym (ap (λ (s : Used × Candidate). s.1) q))
                    (improves-NoWorse c d i);
            })
    ]
  ]
]

-- What a table covers, a table that covers all its members does.
Covers-trans :
    {states next : States} {w : Used} {e : Candidate}
    → Covers states w e
    → ((d : Candidate) → Memᴰ (w, d) states → Covers next w d)
    → Covers next w e
Covers-trans {e} h keep =
    let k = keep h.held h.member in
    record {
      held = k.held;
      member = k.member;
      no_worse = NoWorse-trans k.held h.held e k.no_worse h.no_worse;
    }

module _ (o : PortfolioOptimizer) where
  module _ (u : Used) (c : Candidate) where
    try_choices-Covers :
        (xs : List ActionUtility) (next : States) (w : Used) (e : Candidate)
        → Memᴰ (w, e) next
        → Covers (try_choices o u c xs next) w e
    unfolding try_choices
    try_choices-Covers [] next w e m = record { held = e; member = m; no_worse = NoWorse-refl e }
    try_choices-Covers (x ∷ xs) next w e m = elim (Bool-cases (fits o (spend u x))) [
      | inr b ↦ rw b (try_choices-Covers xs next w e m)
      | inl b ↦ rw b (
          Covers-trans (offer-Covers (spend u x) (extend c x) next w e m)
            (λ d k. try_choices-Covers xs _ w d k))
    ]

    try_choices-Covers_self :
        (xs : List ActionUtility) (next : States) (x : ActionUtility)
        → Memᴰ x xs
        → fits o (spend u x) ≡ true
        → Covers (try_choices o u c xs next) (spend u x) (extend c x)
    unfolding try_choices
    try_choices-Covers_self [] next x m f = elim m [ ]
    try_choices-Covers_self (y ∷ ys) next x (Memᴰ.tail m) f = try_choices-Covers_self ys _ x m f
    try_choices-Covers_self (y ∷ ys) next x (Memᴰ.head q) f =
        subst (λ z. Covers (try_choices o u c (y ∷ ys) next) (spend u z) (extend c z)) (sym q)
          (let f' = subst (λ z. fits o (spend u z) ≡ true) q f in
            rw f' (
              Covers-trans (offer-Covers_self (spend u y) (extend c y) next)
                (λ d k. try_choices-Covers ys _ (spend u y) d k)))

  module _ (choices : List ActionUtility) where
    try_states-Covers :
        (states next : States) (w : Used) (e : Candidate)
        → Memᴰ (w, e) next
        → Covers (try_states o choices states next) w e
    unfolding try_states
    try_states-Covers [] next w e m = record { held = e; member = m; no_worse = NoWorse-refl e }
    try_states-Covers ((u, c) ∷ states) next w e m =
        Covers-trans (try_choices-Covers u c choices next w e m)
          (λ d k. try_states-Covers states _ w d k)

    -- A choice that fits is covered for every state of the table.
    pub try_states-Covers_self :
        (states next : States) (u : Used) (c : Candidate) (x : ActionUtility)
        → Memᴰ (u, c) states
        → Memᴰ x choices
        → fits o (spend u x) ≡ true
        → Covers (try_states o choices states next) (spend u x) (extend c x)
    unfolding try_states
    try_states-Covers_self [] next u c x m k f = elim m [ ]
    try_states-Covers_self ((v, d) ∷ states) next u c x (Memᴰ.tail m) k f =
        try_states-Covers_self states _ u c x m k f
    try_states-Covers_self ((v, d) ∷ states) next u c x (Memᴰ.head q) k f =
        subst
          (λ (s : Used × Candidate).
            Covers (try_states o choices ((v, d) ∷ states) next) (spend s.0 x) (extend s.1 x))
          (sym q)
          (Covers-trans
            (try_choices-Covers_self v d choices next x k
              (subst (λ (s : Used × Candidate). fits o (spend s.0 x) ≡ true) q f))
            (λ e j. try_states-Covers states _ (spend v x) e j))
