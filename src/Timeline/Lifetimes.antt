-- ===== src/Timeline/Lifetimes.antt =====
-- validation.py and reconstruction.py: what a reconstructed state of a policy is, and how it ends.
use mathlib.Core.Path.{subst}
use inforsight.Common.{
  ℕ, ◌≤◌, true, false, ◌≡◌, refl, sym, ap, ◌∙◌, inl, inr, Bool-cases, Option, some, List, [], ◌∷◌,
  length, ltb, arith,
}
use inforsight.Common.Sort.{IsSorted}
use inforsight.Common.Result.{Result, ok, chained}
use inforsight.Timeline.Events.{
  PolicyEvent, HistoryError, Contracts, PreparedEvent, is_terminal, item_le,
}
use inforsight.Timeline.Checks.{prepare_and_validate_history}
use inforsight.Timeline.Replay.{
  StateValues, PolicyState, apply_first, apply_all, visible_by, last_of, replay,
  reconstruct_policy_state,
}
use inforsight.Timeline.Statuses.{IsReachable, IsReplayed, hidden-visible, shown-visible}
use inforsight.Timeline.Followed.{IsFollowed, issued-IsReplayed, validated-IsFollowed}

-- A state that a replay returned.
abbrev state_of : ℕ → StateValues → PreparedEvent → List PreparedEvent → PolicyState
state_of cutoff w item items = record {
  values = w;
  as_of = cutoff;
  applied_event_count = length (item ∷ items);
  last_event_id = (last_of item items).event.event_id;
  last_effective_at = (last_of item items).effective_at;
}

record IsShown (cutoff : ℕ) (ordered : List PreparedEvent) (state : PolicyState) : Type 0 where
  item : PreparedEvent
  items : List PreparedEvent
  v : StateValues
  w : StateValues
  whole : ordered ≡ item ∷ items
  shown : ltb cutoff item.effective_at ≡ false
  first : apply_first item ≡ ok v
  rest : apply_all v (visible_by cutoff items) ≡ ok w
  gives : state_of cutoff w item (visible_by cutoff items) ≡ state

ok_some :
    {A : Type 0} (a b : A)
    → ◌≡◌ {A = Result HistoryError (Option A)} (ok (some a)) (ok (some b))
    → a ≡ b
ok_some a b k = cc k

replay-IsShown :
    (cutoff : ℕ) (ordered : List PreparedEvent) (state : PolicyState)
    → IsSorted item_le ordered
    → replay cutoff (visible_by cutoff ordered) ≡ ok (some state)
    → IsShown cutoff ordered state
unfolding replay visible_by
replay-IsShown cutoff [] state s h = cc h
replay-IsShown cutoff (item ∷ items) state (below, s) h =
    elim (Bool-cases (ltb cutoff item.effective_at)) [
      | inl c ↦ cc (
          subst (λ z. replay cutoff z ≡ ok (some state)) (hidden-visible cutoff item items below c)
            h)
      | inr c ↦
          let h1 =
            subst (λ z. replay cutoff z ≡ ok (some state)) (shown-visible cutoff item items c) h in
          let (v, q, h2) = chained (apply_first item) _ h1 in
          let (w, r, h3) = chained (apply_all v (visible_by cutoff items)) _ h2 in
          record {
            item = item;
            items = items;
            v = v;
            w = w;
            whole = refl;
            shown = c;
            first = q;
            rest = r;
            gives = ok_some (state_of cutoff w item (visible_by cutoff items)) state h3;
          }
    ]

replay-state :
    (cutoff : ℕ) (item : PreparedEvent) (items : List PreparedEvent) (v w : StateValues)
    → apply_first item ≡ ok v
    → apply_all v items ≡ ok w
    → replay cutoff (item ∷ items) ≡ ok (some (state_of cutoff w item items))
unfolding replay
replay-state cutoff item items v w q r = rw (q, r) refl

module _ (k : Contracts) (history : List PolicyEvent) (cutoff : ℕ) (state : PolicyState) where
  -- The replay of the validated history, with what validation and replay ensure.
  record IsReconstructed : Type 0 where
    ordered : List PreparedEvent
    validated : prepare_and_validate_history k history ≡ ok ordered
    shown : IsShown cutoff ordered state
    replayed : IsReplayed cutoff shown.items shown.w

  reconstruct-IsReconstructed :
      reconstruct_policy_state k history cutoff ≡ ok (some state) → IsReconstructed
  unfolding reconstruct_policy_state
  reconstruct-IsReconstructed h =
      let (ordered, q, h1) = chained (prepare_and_validate_history k history) _ h in
      let f = validated-IsFollowed k history ordered q in
      let s = replay-IsShown cutoff ordered state f.sorted h1 in
      record {
        ordered = ordered;
        validated = q;
        shown = s;
        replayed =
            issued-IsReplayed cutoff s.item s.items s.v s.w (subst IsFollowed s.whole f) s.first
              s.rest;
      }

  -- A reconstructed status is one that supported transitions reach from the active status.
  pub reconstruct-IsReachable :
      reconstruct_policy_state k history cutoff ≡ ok (some state) → IsReachable state.values.status
  reconstruct-IsReachable h =
      let r = reconstruct-IsReconstructed h in
      subst (λ (z : PolicyState). IsReachable z.values.status) r.shown.gives r.replayed.reachable

  -- Once a policy is reconstructed as lapsed or surrendered, every later cutoff reconstructs the
  -- same state but for the cutoff.
  pub reconstruct-ended :
      (later : ℕ)
      → reconstruct_policy_state k history cutoff ≡ ok (some state)
      → is_terminal state.values.status ≡ true
      → cutoff ≤ later
      → reconstruct_policy_state k history later ≡ ok (some (record state { as_of = later }))
  unfolding reconstruct_policy_state
  reconstruct-ended later h t l =
      let r = reconstruct-IsReconstructed h in
      let s = r.shown in
      let stays =
        r.replayed.ended
          (subst (λ (z : PolicyState). is_terminal z.values.status ≡ true) (sym s.gives) t) later
          l in
      let visible : visible_by later r.ordered ≡ s.item ∷ visible_by cutoff s.items =
        ap (visible_by later) s.whole
        ∙ shown-visible later s.item s.items (still cutoff later s.item.effective_at l s.shown)
        ∙ ap (λ z. s.item ∷ z) stays in
      rw r.validated (
        ap (replay later) visible
        ∙ replay-state later s.item (visible_by cutoff s.items) s.v s.w s.first s.rest
        ∙ ap (λ (z : PolicyState). ok (some (record z { as_of = later }))) s.gives)
    where
      still : (n m e : ℕ) → n ≤ m → ltb n e ≡ false → ltb m e ≡ false
      still n m e p q = ground arith
