-- ===== src/Timeline/Statuses.antt =====
-- validation.py and reconstruction.py: the statuses that a replay of a valid history can show.
use mathlib.Core.List.{Memᴰ}
use mathlib.Core.Path.{subst}
use inforsight.Common.{
  ℕ, ◌≤◌, String, Bool, true, false, not, ◌≡◌, refl, sym, ap, ◌∙◌, ◌⊎◌, inl, inr, Bool-cases,
  Option, some, List, [], ◌∷◌, ltb, str_eq, eq_iff, arith, if◌then◌else◌,
}
use inforsight.Common.Order.{IsOrder, text_le-IsOrder}
use inforsight.Common.Sort.{IsSorted}
use inforsight.Common.Result.{Result, ok, chained, passed}
use inforsight.Timeline.Events.{
  HistoryError, status_mismatch, unsupported_transition, after_terminal, PreparedEvent,
  payload_field, is_type, is_supported_transition, is_terminal, item_le,
}
use inforsight.Timeline.Checks.{change_status, is_after, follow_statuses}
use inforsight.Timeline.Replay.{StateValues, apply_next, apply_all, visible_by}

-- The statuses that supported transitions reach from the active one.
pub data IsReachable : String → Type 0 where
  issued : IsReachable "active"
  changed :
      {s : String} (t : String) → is_supported_transition s t ≡ true → IsReachable s → IsReachable t

item_le-total : (a b : PreparedEvent) → (item_le a b ≡ true) ⊎ (item_le b a ≡ true)
unfolding item_le
item_le-total a b = ground (arith, text_le-IsOrder.total a.event.event_id b.event.event_id)

item_le_trans :
    (a b c : PreparedEvent) → item_le a b ≡ true → item_le b c ≡ true → item_le a c ≡ true
unfolding item_le
item_le_trans a b c h k =
    ground (arith, text_le-IsOrder.trans a.event.event_id b.event.event_id c.event.event_id)

pub item_le-IsOrder : IsOrder item_le
item_le-IsOrder = record { total = item_le-total; trans = item_le_trans }

item_le-effective : (a b : PreparedEvent) → item_le a b ≡ true → a.effective_at ≤ b.effective_at
unfolding item_le
item_le-effective a b h = ground arith

-- Behind an event that is not effective yet, nothing is.
none-visible :
    (cutoff : ℕ) (item : PreparedEvent) (items : List PreparedEvent)
    → ((y : PreparedEvent) → Memᴰ y items → item_le item y ≡ true)
    → ltb cutoff item.effective_at ≡ true
    → visible_by cutoff items ≡ []
unfolding visible_by
none-visible cutoff item [] below h = refl
none-visible cutoff item (y ∷ items) below h =
    let later = item_le-effective item y (below y (Memᴰ.head refl)) in
    ground (arith, none-visible cutoff item items (λ z m. below z (Memᴰ.tail m)) h)

pub hidden-visible :
    (cutoff : ℕ) (item : PreparedEvent) (items : List PreparedEvent)
    → ((y : PreparedEvent) → Memᴰ y items → item_le item y ≡ true)
    → ltb cutoff item.effective_at ≡ true
    → visible_by cutoff (item ∷ items) ≡ []
unfolding visible_by
hidden-visible cutoff item items below h = rw h (none-visible cutoff item items below h)

pub shown-visible :
    (cutoff : ℕ) (item : PreparedEvent) (items : List PreparedEvent)
    → ltb cutoff item.effective_at ≡ false
    → visible_by cutoff (item ∷ items) ≡ item ∷ visible_by cutoff items
unfolding visible_by
shown-visible cutoff item items h = rw h refl

payload_field-same :
    (item : PreparedEvent) (f : String) (a b : String)
    → payload_field item f ≡ ok a
    → payload_field item f ≡ ok b
    → a ≡ b
payload_field-same item f a b h k = cc (h, k)

-- A status change that passed.
record IsChange (status : String) (terminal_at : Option ℕ) (item : PreparedEvent)
    (next : String × Option ℕ) : Type 0 where
  names : payload_field item "new_status" ≡ ok next.0
  supported : is_supported_transition status next.0 ≡ true
  ends : is_terminal next.0 ≡ true → next.1 ≡ some item.effective_at

pub same_string : (a b : String) → not (str_eq a b) ≡ false → a ≡ b
same_string a b h = ground (arith, eq_iff a b)

change_status-IsChange :
    (status : String) (terminal_at : Option ℕ) (item : PreparedEvent) (next : String × Option ℕ)
    → change_status status terminal_at item ≡ ok next
    → IsChange status terminal_at item next
unfolding change_status
change_status-IsChange status terminal_at item next h =
    let (previous, _, h1) = chained (payload_field item "previous_status") _ h in
    let (new, q, h2) = chained (payload_field item "new_status") _ h1 in
    let (m, h3) = passed (not (str_eq previous status)) status_mismatch _ h2 in
    let (s, h4) = passed (not (is_supported_transition previous new)) unsupported_transition _ h3 in
    let same = same_string previous status m in
    let here : String × Option ℕ =
      (new, (if is_terminal new then some item.effective_at else terminal_at)) in
    let found : here ≡ next = cc h4 in
    subst (IsChange status terminal_at item) found (record {
      names = q;
      supported =
          subst (λ p. is_supported_transition p new ≡ true) same
            (flipped (is_supported_transition previous new) s);
      ends = λ t. rw t refl;
    })
  where
    flipped : (b : Bool) → not b ≡ false → b ≡ true
    flipped b k = ground arith

-- One round of the replay on a status event, and on another.
apply_next-status :
    (v w : StateValues) (item : PreparedEvent) (new : String)
    → is_type "policy.status_changed" item ≡ true
    → payload_field item "new_status" ≡ ok new
    → apply_next v item ≡ ok w
    → w.status ≡ new
unfolding apply_next
apply_next-status v w item new t q h = elim (Bool-cases (is_type "policy.issued" item)) [
  | inl b ↦ cc (rw b at h)
  | inr b ↦
      let (n, p, h1) = chained (payload_field item "new_status") _ (rw (b, t) at h) in
      sym (ap (λ (z : StateValues). z.status) (ok-same h1))
      ∙ payload_field-same item "new_status" n new p q
]
  where
    ok-same : {a b : StateValues} → ◌≡◌ {A = Result HistoryError StateValues} (ok a) (ok b) → a ≡ b
    ok-same k = cc k

apply_next-other :
    (v w : StateValues) (item : PreparedEvent)
    → is_type "policy.status_changed" item ≡ false
    → apply_next v item ≡ ok w
    → w ≡ v
unfolding apply_next
apply_next-other v w item t h = elim (Bool-cases (is_type "policy.issued" item)) [
  | inl b ↦ cc (rw b at h)
  | inr b ↦ sym (cc (rw (b, t) at h))
]

-- What the replay of the visible part of a history leaves, where its statuses were followed.
pub record IsReplayed (cutoff : ℕ) (items : List PreparedEvent) (w : StateValues) : Type 0 where
  pub reachable : IsReachable w.status
  pub ended :
      is_terminal w.status ≡ true
      → (later : ℕ) → cutoff ≤ later
      → visible_by later items ≡ visible_by cutoff items

-- Where the status is terminal, the terminal time is set, and is no later than the cutoff.
abbrev Ends : ℕ → String → Option ℕ → Type 0
Ends cutoff status terminal_at =
    is_terminal status ≡ true → (t : ℕ) × (terminal_at ≡ some t) × (t ≤ cutoff)

hidden-IsReplayed :
    (cutoff : ℕ) (item : PreparedEvent) (items : List PreparedEvent) (v w : StateValues)
    (terminal_at : Option ℕ)
    → IsReachable v.status
    → Ends cutoff v.status terminal_at
    → is_after terminal_at item ≡ false
    → ltb cutoff item.effective_at ≡ true
    → v ≡ w
    → IsReplayed cutoff (item ∷ items) w
hidden-IsReplayed cutoff item items v w terminal_at r e a c same =
    subst (IsReplayed cutoff (item ∷ items)) same (record {
      reachable = r;
      ended = λ t later l.
          let (at, q, k) = e t in
          elim (apart at cutoff item.effective_at k c (sym (ap (λ z. is_after z item) q) ∙ a)) [ ];
    })
  where
    apart : (n m l : ℕ) → n ≤ m → ltb m l ≡ true → ltb n l ≡ false → ⊥
    apart n m l p q r = ground arith

shown-IsReplayed :
    (cutoff : ℕ) (item : PreparedEvent) (items : List PreparedEvent) (w : StateValues)
    → ltb cutoff item.effective_at ≡ false
    → IsReplayed cutoff items w
    → IsReplayed cutoff (item ∷ items) w
unfolding visible_by
shown-IsReplayed cutoff item items w c r = record {
  reachable = r.reachable;
  ended = λ t later l. ground (arith, r.ended t later l);
}

pub follow-IsReplayed :
    (cutoff : ℕ) (items : List PreparedEvent) (status last : String) (terminal_at : Option ℕ)
    (v w : StateValues)
    → IsSorted item_le items
    → follow_statuses status terminal_at items ≡ ok last
    → v.status ≡ status
    → IsReachable status
    → Ends cutoff status terminal_at
    → apply_all v (visible_by cutoff items) ≡ ok w
    → IsReplayed cutoff items w
unfolding follow_statuses apply_all visible_by
follow-IsReplayed cutoff [] status last terminal_at v w s f same r e h =
    let done : v ≡ w = cc h in
    record {
      reachable = subst IsReachable (sym same ∙ ap (λ (z : StateValues). z.status) done) r;
      ended = λ t later l. refl;
    }
follow-IsReplayed cutoff (item ∷ items) status last terminal_at v w (below, s) f same r e h =
    let (a, f1) = passed (is_after terminal_at item) after_terminal _ f in
    elim (Bool-cases (ltb cutoff item.effective_at)) [
      | inl c ↦
          let done : v ≡ w =
            cc (subst (λ z. apply_all v z ≡ ok w) (hidden-visible cutoff item items below c) h) in
          hidden-IsReplayed cutoff item items v w terminal_at (subst IsReachable (sym same) r)
            (subst (λ x. Ends cutoff x terminal_at) (sym same) e) a c done
      | inr c ↦
          let (u, q, h1) =
            chained (apply_next v item) _
              (subst (λ z. apply_all v z ≡ ok w) (shown-visible cutoff item items c) h) in
          shown-IsReplayed cutoff item items w c
            (elim (Bool-cases (is_type "policy.status_changed" item)) [
              | inl t ↦
                  let (next, g, f2) =
                    chained (change_status status terminal_at item) _ (rw t at f1) in
                  let k = change_status-IsChange status terminal_at item next g in
                  follow-IsReplayed cutoff items next.0 last next.1 u w s f2
                    (apply_next-status v u item next.0 t k.names q) (changed next.0 k.supported r)
                    (λ n. (item.effective_at, k.ends n, not_later cutoff item.effective_at c)) h1
              | inr t ↦
                  follow-IsReplayed cutoff items status last terminal_at u w s (rw t at f1)
                    (ap (λ (z : StateValues). z.status) (apply_next-other v u item t q) ∙ same) r e
                    h1
            ])
    ]
  where
    not_later : (n m : ℕ) → ltb n m ≡ false → m ≤ n
    not_later n m k = ground arith
