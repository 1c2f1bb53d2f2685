-- ===== src/Timeline/Followed.antt =====
-- validation.py and reconstruction.py: what validation leaves of a history, and its replay from the
-- issuance on.
use mathlib.Core.Path.{subst}
use inforsight.Common.{
  ℕ, String, true, false, not, ◌≡◌, sym, ap, ◌∙◌, inl, inr, Bool-cases, none, List, ◌∷◌, str_eq,
  eq_iff, arith,
}
use inforsight.Common.Sort.{sort, IsSorted, sort-IsSorted}
use inforsight.Common.Result.{Result, ok, err, chained, passed}
use inforsight.Timeline.Events.{
  PolicyEvent, HistoryError, not_active, schema_failure, after_terminal, Contracts, PreparedEvent,
  payload_field, is_type, is_terminal, item_le,
}
use inforsight.Timeline.Preparation.{schemas_hold, prepare_history}
use inforsight.Timeline.Checks.{
  Books, empty_books, follow_statuses, validate_statuses, find_issuance, validate_timeline,
  enter_all, prepare_and_validate_history,
}
use inforsight.Timeline.Replay.{
  StateValues, initial_state_values, apply_first, apply_all, visible_by,
}
use inforsight.Timeline.Statuses.{
  same_string, issued, item_le-IsOrder, IsReplayed, follow-IsReplayed,
}

-- What validation leaves of a history.
pub record IsFollowed (ordered : List PreparedEvent) : Type 0 where
  pub sorted : IsSorted item_le ordered
  pub issuance : PreparedEvent
  pub found : find_issuance ordered ≡ ok issuance
  pub starts : payload_field issuance "initial_status" ≡ ok "active"
  pub last : String
  pub follows : follow_statuses "active" none ordered ≡ ok last

pub validate_statuses-follows :
    (ordered : List PreparedEvent) (status : String) (b : Books)
    → validate_statuses ordered status b ≡ ok tt
    → (last : String) × (follow_statuses status none ordered ≡ ok last)
unfolding validate_statuses
validate_statuses-follows ordered status b h =
    let (last, q, _) = chained (follow_statuses status none ordered) _ h in (last, q)

pub validate_timeline-IsFollowed :
    (k : Contracts) (ordered : List PreparedEvent)
    → IsSorted item_le ordered
    → validate_timeline k ordered ≡ ok tt
    → IsFollowed ordered
unfolding validate_timeline
validate_timeline-IsFollowed k ordered s h =
    let (issuance, f, h1) = chained (find_issuance ordered) _ h in
    let (status, p, h2) = chained (payload_field issuance "initial_status") _ h1 in
    let (a, h3) = passed (not (str_eq status "active")) not_active _ h2 in
    let (b, _, h4) = chained (enter_all k issuance empty_books ordered) _ h3 in
    let (u, v, _) = chained (validate_statuses ordered status b) _ h4 in
    let same = same_string status "active" a in
    let (last, q) = validate_statuses-follows ordered status b v in
    record {
      sorted = s;
      issuance = issuance;
      found = f;
      starts = p ∙ ap ok same;
      last = last;
      follows = subst (λ x. follow_statuses x none ordered ≡ ok last) same q;
    }

pub validated-IsFollowed :
    (k : Contracts) (history : List PolicyEvent) (ordered : List PreparedEvent)
    → prepare_and_validate_history k history ≡ ok ordered
    → IsFollowed ordered
unfolding prepare_and_validate_history
validated-IsFollowed k history ordered h =
    let (_, h1) = passed (not (schemas_hold k history)) schema_failure _ h in
    let (prepared, _, h2) = chained (prepare_history k history) _ h1 in
    let (u, q, h3) = chained (validate_timeline k (sort item_le prepared)) _ h2 in
    let same : sort item_le prepared ≡ ordered = cc h3 in
    subst IsFollowed same (
      validate_timeline-IsFollowed k (sort item_le prepared)
        (sort-IsSorted item_le item_le-IsOrder prepared) q)

pub status-ok :
    (a b : StateValues)
    → ◌≡◌ {A = Result HistoryError StateValues} (ok a) (ok b)
    → a.status ≡ b.status
status-ok a b k =
    ap (λ (r : Result HistoryError StateValues). elim r [ ok z ↦ z.status | err _ ↦ a.status ]) k

-- The state values that the replay starts from.
pub apply_first-active :
    (item : PreparedEvent) (v : StateValues)
    → payload_field item "initial_status" ≡ ok "active"
    → apply_first item ≡ ok v
    → v.status ≡ "active"
unfolding apply_first initial_state_values
apply_first-active item v p h = elim (Bool-cases (is_type "policy.issued" item)) [
  | inr b ↦ cc (rw b at h)
  | inl b ↦
      let (status, q, h1) = chained (payload_field item "initial_status") _ (rw b at h) in
      let (variant, _, h2) = chained (payload_field item "product_variant") _ h1 in
      let (frequency, _, h3) = chained (payload_field item "billing_frequency") _ h2 in
      let (premium, _, h4) = chained (payload_field item "premium_amount_cents") _ h3 in
      let (currency, _, h5) = chained (payload_field item "currency") _ h4 in
      let same : status ≡ "active" = cc (q, p) in sym (status-ok _ v h5) ∙ same
]

-- An issuance is no status change.
pub issuance_type :
    (t : String) → str_eq t "policy.issued" ≡ true → str_eq t "policy.status_changed" ≡ false
issuance_type t h = ground (
  arith,
  eq_iff t "policy.issued",
  eq_iff t "policy.status_changed",
  eq_iff "policy.issued" "policy.status_changed",
)

pub apply_first-issued :
    (item : PreparedEvent) (v : StateValues)
    → apply_first item ≡ ok v
    → is_type "policy.issued" item ≡ true
unfolding apply_first
apply_first-issued item v h = elim (Bool-cases (is_type "policy.issued" item)) [
  | inl b ↦ b
  | inr b ↦ cc (rw b at h)
]

-- The rest of the history behind its issuance, followed and replayed.
pub issued-IsReplayed :
    (cutoff : ℕ) (item : PreparedEvent) (items : List PreparedEvent) (v w : StateValues)
    → IsFollowed (item ∷ items)
    → apply_first item ≡ ok v
    → apply_all v (visible_by cutoff items) ≡ ok w
    → IsReplayed cutoff items w
unfolding find_issuance follow_statuses is_terminal
issued-IsReplayed cutoff item items v w f h g =
    let t = apply_first-issued item v h in
    let same : f.issuance ≡ item = cc (rw t at f.found) in
    let starts = subst (λ z. payload_field z "initial_status" ≡ ok "active") same f.starts in
    let (_, f1) = passed false after_terminal _ f.follows in
    follow-IsReplayed cutoff items "active" f.last none v w (f.sorted.1)
      (rw (issuance_type item.event.event_type t) at f1) (apply_first-active item v starts h) issued
      (λ e. cc e) g
