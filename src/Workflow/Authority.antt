-- ===== src/Workflow/Authority.antt =====
-- What holds of a case after any calls on its machine: the trail of its events, and the mandatory
-- human review (ADR 0002).
use mathlib.Core.List.{Memᴰ}
use mathlib.Core.Path.{subst}
use mathlib.Core.Option.{some-injective}
use inforsight.Common.{
  ℕ, suc, ◌+◌, ◌≤◌, String, true, false, ◌≡◌, ◌≢◌, refl, sym, ap, ◌∙◌, some, List, [], ◌∷◌, ◌++◌,
  length, arith, inl, inr, ◌⊎◌,
}
use inforsight.Common.Dict.{Dict}
use inforsight.Workflow.Models.{
  CaseState, none_yet, created, triaged, evidence_assembled, recommended, human_reviewed, executed,
  dismissed, resolved, rejected, HumanReview, CaseEvent, review_payload, execution_payload,
}
use inforsight.Workflow.Machine.{CaseStateMachine, new_machine, valid_transition, is_executed}
use inforsight.Workflow.Lifecycle.{
  Call, perform, perform_all, Effect, still, moved, reviewed, authorized, perform-Effect,
}

-- The events lead from one state to another, each from where the one before it ended, each along
-- an edge of VALID_TRANSITIONS.
abbrev pub Trail : CaseState → List CaseEvent → CaseState → Type 0
Trail s [] t = s ≡ t
Trail s (e ∷ es) t =
    (e.from_state ≡ s) × (valid_transition e.from_state e.to_state ≡ true) × Trail e.to_state es t

Trail-append :
    (s t : CaseState) (es : List CaseEvent) (e : CaseEvent)
    → Trail s es t
    → e.from_state ≡ t
    → valid_transition e.from_state e.to_state ≡ true
    → Trail s (es ++ e ∷ []) e.to_state
Trail-append s t [] e h f v = (f ∙ sym h, v, refl)
Trail-append s t (x ∷ es) e (g, w, h) f v = (g, w, Trail-append x.to_state t es e h f v)

abbrev IsTrailed : CaseStateMachine → Type 0
IsTrailed m = Trail none_yet m.events m.current_state

Effect-IsTrailed : {m m' : CaseStateMachine} → Effect m m' → IsTrailed m → IsTrailed m'
Effect-IsTrailed {m} (still q) h = rw q h
Effect-IsTrailed {m} (moved e q f v _) h = rw q (Trail-append _ _ m.events e h f v)
Effect-IsTrailed {m} (reviewed r a e q f g t p) h =
    rw q (Trail-append _ _ m.events e h f (unfold valid_transition in rw (g, t) refl))
Effect-IsTrailed {m} (authorized r d e q _ _ f g t p) h =
    rw q (Trail-append _ _ m.events e h f (unfold valid_transition in rw (g, t) refl))

perform_all-IsTrailed :
    (cs : List Call) (m : CaseStateMachine) → IsTrailed m → IsTrailed (perform_all cs m)
unfolding perform_all
perform_all-IsTrailed [] m h = h
perform_all-IsTrailed (c ∷ cs) m h =
    perform_all-IsTrailed cs (perform c m).1 (Effect-IsTrailed (perform-Effect c m) h)

-- After any calls on a new case, its events form an unbroken trail of permitted transitions from
-- NONE to its current state.
pub perform_all-Trail :
    (cs : List Call) (case_id policy_id : String)
    → let m = perform_all cs (new_machine case_id policy_id none_yet) in
      Trail none_yet m.events m.current_state
perform_all-Trail cs case_id policy_id =
    perform_all-IsTrailed cs (new_machine case_id policy_id none_yet) refl

-- How far a state is from NONE.
abbrev pub depth : CaseState → ℕ
depth none_yet = 0
depth created = 1
depth triaged = 2
depth evidence_assembled = 3
depth recommended = 4
depth human_reviewed = 5
depth executed = 6
depth dismissed = 6
depth resolved = 7

depth_of_valid : (s t : CaseState) → valid_transition s t ≡ true → depth t ≡ suc (depth s)
unfolding valid_transition
depth_of_valid s t h = ground arith

depth-le : (s : CaseState) → depth s ≤ 7
depth-le s = ground arith

Trail-length :
    (s t : CaseState) (es : List CaseEvent) → Trail s es t → depth s + length es ≡ depth t
Trail-length s t [] h = ground (arith, h)
Trail-length s t (e ∷ es) (f, v, h) =
    ground (arith, Trail-length e.to_state t es h, depth_of_valid e.from_state e.to_state v)

-- However often its methods are called, a case records exactly as many events as its state is deep
-- in the lifecycle, so no step is made twice and there are at most seven.
pub length-events :
    (cs : List Call) (case_id policy_id : String)
    → let m = perform_all cs (new_machine case_id policy_id none_yet) in
      (length m.events ≡ depth m.current_state) × (length m.events ≤ 7)
length-events cs case_id policy_id =
    let m = perform_all cs (new_machine case_id policy_id none_yet) in
    let e = Trail-length _ _ m.events (perform_all-Trail cs case_id policy_id) in
    (ground (arith, e), ground (arith, e, depth-le m.current_state))

-- The events hold the transition that recorded a review.
abbrev pub Recorded : HumanReview → List CaseEvent → Type 0
Recorded r es =
    (e : CaseEvent) × Memᴰ e es
    × (e.from_state ≡ recommended)
    × (e.to_state ≡ human_reviewed)
    × (e.payload ≡ review_payload r)

-- An event that does not execute, or whose payload carries a recorded review that did not reject.
abbrev pub Authorized : List CaseEvent → CaseEvent → Type 0
Authorized es e =
    e.to_state ≡ executed
    → (r : HumanReview) × (details : Dict String) × (e.payload ≡ execution_payload r details)
      × (r.decision ≢ rejected)
      × Recorded r es

record IsGoverned (m : CaseStateMachine) : Type 0 where
  recorded : (r : HumanReview) → m.human_review ≡ some r → Recorded r m.events
  all : (e : CaseEvent) → Memᴰ e m.events → Authorized m.events e

mem-left :
    {e : CaseEvent} {xs : List CaseEvent} (ys : List CaseEvent) → Memᴰ e xs → Memᴰ e (xs ++ ys)
mem-left ys (Memᴰ.head q) = Memᴰ.head q
mem-left ys (Memᴰ.tail k) = Memᴰ.tail (mem-left ys k)

mem-last : (xs : List CaseEvent) (e : CaseEvent) → Memᴰ e (xs ++ e ∷ [])
mem-last [] e = Memᴰ.head refl
mem-last (x ∷ xs) e = Memᴰ.tail (mem-last xs e)

mem-grown :
    {y : CaseEvent} (xs : List CaseEvent) (e : CaseEvent)
    → Memᴰ y (xs ++ e ∷ [])
    → Memᴰ y xs ⊎ (y ≡ e)
mem-grown [] e (Memᴰ.head q) = inr q
mem-grown [] e (Memᴰ.tail k) = elim k [ ]
mem-grown (x ∷ xs) e (Memᴰ.head q) = inl (Memᴰ.head q)
mem-grown (x ∷ xs) e (Memᴰ.tail k) = elim (mem-grown xs e k) [
  | inl l ↦ inl (Memᴰ.tail l)
  | inr q ↦ inr q
]

Recorded-left : (r : HumanReview) (xs ys : List CaseEvent) → Recorded r xs → Recorded r (xs ++ ys)
Recorded-left r xs ys (e, k, f, t, p) = (e, mem-left ys k, f, t, p)

-- One more event leaves the others authorized, and must be authorized itself.
Authorized-grown :
    (xs : List CaseEvent) (e : CaseEvent)
    → ((y : CaseEvent) → Memᴰ y xs → Authorized xs y)
    → Authorized (xs ++ e ∷ []) e
    → (y : CaseEvent) → Memᴰ y (xs ++ e ∷ [])
    → Authorized (xs ++ e ∷ []) y
Authorized-grown xs e old own y k = elim (mem-grown xs e k) [
  | inl l ↦ λ x. let (r, d, p, n, w) = old y l x in (r, d, p, n, Recorded-left r xs (e ∷ []) w)
  | inr q ↦ subst (Authorized (xs ++ e ∷ [])) (sym q) own
]

not_executed :
    (e : CaseEvent) (es : List CaseEvent) → is_executed e.to_state ≡ false → Authorized es e
not_executed e es n x = cc (ap is_executed x)

Effect-IsGoverned : {m m' : CaseStateMachine} → Effect m m' → IsGoverned m → IsGoverned m'
Effect-IsGoverned {m} (still q) g = rw q g
Effect-IsGoverned {m} (moved e q f v n) g = subst IsGoverned (sym q) (record {
  recorded = λ r h. Recorded-left r m.events (e ∷ []) (g.recorded r h);
  all = Authorized-grown m.events e g.all (not_executed e _ n);
})
Effect-IsGoverned {m} (reviewed r a e q f h t p) g = subst IsGoverned (sym q) (record {
  recorded =
      λ r' h'. (e, mem-last m.events e, h, t, p ∙ ap review_payload (some-injective r r' h'));
  all = Authorized-grown m.events e g.all (λ x. cc);
})
Effect-IsGoverned {m} (authorized r d e q h n f hf t p) g = subst IsGoverned (sym q) (record {
  recorded = λ r' h'. Recorded-left r' m.events (e ∷ []) (g.recorded r' h');
  all =
      Authorized-grown m.events e g.all
        (λ x. (r, d, p, n, Recorded-left r m.events (e ∷ []) (g.recorded r h)));
})

perform_all-IsGoverned :
    (cs : List Call) (m : CaseStateMachine) → IsGoverned m → IsGoverned (perform_all cs m)
unfolding perform_all
perform_all-IsGoverned [] m g = g
perform_all-IsGoverned (c ∷ cs) m g =
    perform_all-IsGoverned cs (perform c m).1 (Effect-IsGoverned (perform-Effect c m) g)

-- After any calls on a new case, every event that enters EXECUTED carries a human review whose
-- decision is not REJECTED, and that review stands in the events as the step from RECOMMENDED to
-- HUMAN_REVIEWED.
pub perform_all-Authorized :
    (cs : List Call) (case_id policy_id : String) (e : CaseEvent)
    → let m = perform_all cs (new_machine case_id policy_id none_yet) in
      Memᴰ e m.events → Authorized m.events e
perform_all-Authorized cs case_id policy_id e =
    (perform_all-IsGoverned cs (new_machine case_id policy_id none_yet)
        (record { recorded = λ r h. cc; all = λ e k. elim k [ ] })).all
      e
