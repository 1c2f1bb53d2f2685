-- ===== src/Allocation/Sound.antt =====
-- optimization/solver.py: where the entries of the table come from.
use mathlib.Core.List.{Memᴰ}
use inforsight.Common.{
  true, ◌≡◌, refl, ap, ◌∙◌, ◌⊎◌, inl, inr, Bool-cases, List, [], ◌∷◌, if◌then◌else◌,
}
use inforsight.Allocation.Models.{ActionUtility, PortfolioOptimizer}
use inforsight.Allocation.Exact.{
  Used, Candidate, States, same_used, improves, offer, spend, extend, fits, try_choices, try_states,
}
use inforsight.Allocation.Table.{same_used-eq}

offer-mem :
    (u : Used) (c : Candidate) (states : States) (s : Used × Candidate)
    → Memᴰ s (offer u c states)
    → (s ≡ (u, c)) ⊎ Memᴰ s states
unfolding offer
offer-mem u c [] s (Memᴰ.head q) = inl q
offer-mem u c [] s (Memᴰ.tail m) = inr m
offer-mem u c ((v, d) ∷ states) s m = elim (Bool-cases (same_used v u)) [
  | inr b ↦ elim (rw b at m) [
    | Memᴰ.head q ↦ inr (Memᴰ.head q)
    | Memᴰ.tail k ↦ elim (offer-mem u c states s k) [ inl q ↦ inl q | inr j ↦ inr (Memᴰ.tail j) ]
  ]
  | inl b ↦ elim (Bool-cases (improves c d)) [
    | inl i ↦ elim (rw (b, i) at m) [
      | Memᴰ.head q ↦ inl (q ∙ ap (λ w. (w, c)) (same_used-eq v u b))
      | Memᴰ.tail k ↦ inr (Memᴰ.tail k)
    ]
    | inr i ↦ elim (rw (b, i) at m) [
      | Memᴰ.head q ↦ inr (Memᴰ.head q)
      | Memᴰ.tail k ↦ inr (Memᴰ.tail k)
    ]
  ]
]

-- The entry is a state with one choice more, and fits.
pub record Extends (o : PortfolioOptimizer) (choices : List ActionUtility) (states : States)
    (s : Used × Candidate) : Type 0 where
  pub used : Used
  pub candidate : Candidate
  pub choice : ActionUtility
  pub from : Memᴰ (used, candidate) states
  pub by : Memᴰ choice choices
  pub fitting : fits o (spend used choice) ≡ true
  pub gives : s ≡ (spend used choice, extend candidate choice)

module _ (o : PortfolioOptimizer) where
  try_choices-mem :
      (u : Used) (c : Candidate) (xs : List ActionUtility) (next : States) (s : Used × Candidate)
      → Memᴰ s (try_choices o u c xs next)
      → Memᴰ s next ⊎ Extends o xs ((u, c) ∷ []) s
  unfolding try_choices
  try_choices-mem u c [] next s m = inl m
  try_choices-mem u c (x ∷ xs) next s m =
      elim (try_choices-mem u c xs
        (if fits o (spend u x) then offer (spend u x) (extend c x) next else next) s m) [
          | inr e ↦ inr (record {
            used = e.used;
            candidate = e.candidate;
            choice = e.choice;
            from = e.from;
            by = Memᴰ.tail e.by;
            fitting = e.fitting;
            gives = e.gives;
          })
          | inl k ↦ elim (Bool-cases (fits o (spend u x))) [
            | inr b ↦ inl (rw b at k)
            | inl b ↦ elim (offer-mem (spend u x) (extend c x) next s (rw b at k)) [
              | inr j ↦ inl j
              | inl q ↦ inr (record {
                used = u;
                candidate = c;
                choice = x;
                from = Memᴰ.head refl;
                by = Memᴰ.head refl;
                fitting = b;
                gives = q;
              })
            ]
          ]
        ]

  pub try_states-mem :
      (choices : List ActionUtility) (states next : States) (s : Used × Candidate)
      → Memᴰ s (try_states o choices states next)
      → Memᴰ s next ⊎ Extends o choices states s
  unfolding try_states
  try_states-mem choices [] next s m = inl m
  try_states-mem choices ((u, c) ∷ states) next s m =
      elim (try_states-mem choices states (try_choices o u c choices next) s m) [
        | inr e ↦ inr (record {
          used = e.used;
          candidate = e.candidate;
          choice = e.choice;
          from = Memᴰ.tail e.from;
          by = e.by;
          fitting = e.fitting;
          gives = e.gives;
        })
        | inl k ↦ elim (try_choices-mem u c choices next s k) [
          | inl j ↦ inl j
          | inr e ↦ inr (record {
            used = e.used;
            candidate = e.candidate;
            choice = e.choice;
            from = widen e.from;
            by = e.by;
            fitting = e.fitting;
            gives = e.gives;
          })
        ]
      ]
    where
      widen : {t : Used × Candidate} → Memᴰ t ((u, c) ∷ []) → Memᴰ t ((u, c) ∷ states)
      widen (Memᴰ.head q) = Memᴰ.head q
      widen (Memᴰ.tail k) = elim k [ ]
