-- ===== src/Audit/Built.antt =====
-- audit/ledger.py against audit/verifier.py: a ledger that grew by `append` verifies.
use inforsight.Common.{
  ℕ, suc, ◌+◌, String, ◌≡◌, refl, ap, ◌∙◌, List, [], ◌∷◌, ◌++◌, length, length-append, arith,
  eq_iff,
}
use inforsight.Common.Result.{Result, ok, ◌>>=◌, ◌>>◌}
use inforsight.Workflow.Service.{AuditRow, ParsedTime}
use inforsight.Audit.Entries.{RawEntry, AuditRecord, Hashing, preimage, to_dict, payload_dict}
use inforsight.Audit.Ledger.{Ledger, appended, append, new_ledger, new_record, keep}
use inforsight.Audit.Chain.{verify_from-cons}
use inforsight.Audit.Verifier.{
  Violation, Progress, scorecard, start, check_order, check_shape, check_chain, check_governance,
  count_entry, verify_entry, verify_from, verify_records,
}

-- The dictionaries of the records, as they stand in the log.
abbrev pub log_of : Hashing → List AuditRecord → List RawEntry
log_of h [] = []
log_of h (r ∷ rs) = to_dict h r ∷ log_of h rs

-- The verifier passes over the log and ends at the ledger's hash.
pub record IsVerified (h : Hashing) (l : Ledger) (progress : Progress) : Type 0 where
  pub verified : verify_from h 0 (log_of h l.records) (start h) ≡ ok progress
  pub tip : progress.prev_hash ≡ l.current_hash
  pub numbered : l.next_sequence ≡ length l.records

-- A row that may follow: its time is readable and not before the last one's, and it is governed.
pub record MayFollow (h : Hashing) (p : Progress) (l : Ledger) (entry_id : String) (row : AuditRow)
    : Type 0 where
  pub now : ParsedTime
  pub in_order : check_order (h.parse_time row.timestamp) p.prev_ts ≡ ok now
  pub governed :
      check_governance (payload_dict h entry_id l.next_sequence row l.current_hash) ≡ ok tt

verify_from_passed :
    (h : Hashing) (index : ℕ) (e : RawEntry) (es : List RawEntry) (p m : Progress)
    → verify_entry h index e p ≡ ok m
    → verify_from h index (e ∷ es) p ≡ verify_from h (suc index) es m
unfolding verify_from
verify_from_passed h index e es p m k = rw (verify_from, k) refl

verify_from-append :
    (h : Hashing) (rs : List AuditRecord) (r : AuditRecord) (index : ℕ) (p q : Progress)
    → verify_from h index (log_of h rs) p ≡ ok q
    → verify_from h index (log_of h (rs ++ r ∷ [])) p
      ≡ verify_from h (index + length rs) (to_dict h r ∷ []) q
unfolding verify_from
verify_from-append h [] r index p q v =
    let same : p ≡ q = cc v in
    ap (verify_from h index (to_dict h r ∷ [])) same
    ∙ ap (λ n. verify_from h n (to_dict h r ∷ []) q) (ground arith)
verify_from-append h (x ∷ rs) r index p q v =
    let (m, now, rest) = verify_from-cons h index (to_dict h x) (log_of h rs) p q v in
    verify_from_passed h index (to_dict h x) (log_of h (rs ++ r ∷ [])) p m now
    ∙ verify_from-append h rs r (suc index) m q rest
    ∙ ap (λ n. verify_from h n (to_dict h r ∷ []) q) (ground arith)

passes :
    {A : Type 0} (a : Result Violation (Unit {0})) (b : Result Violation A)
    → (c d : Result Violation (Unit {0})) (f : A → Progress) (x : A) → a ≡ ok tt
    → b ≡ ok x
    → c ≡ ok tt
    → d ≡ ok tt
    → (do a; y ← b; c; d; ok (f y)) ≡ ok (f x)
passes a b c d f x ka kb kc kd = rw (ka, kb, kc, kd) refl

module _ (h : Hashing) (p : Progress) (l : Ledger) (entry_id : String) (row : AuditRow) where
  check_chain-new :
      p.prev_hash ≡ l.current_hash
      → check_chain h (to_dict h (new_record h entry_id row l)) p ≡ ok tt
  unfolding new_record
  check_chain-new tip = rw tip (
      let next = payload_dict h entry_id l.next_sequence row l.current_hash in
      let hash = h.compute_sha256 (preimage h l.current_hash next) in
      rw ((eq_iff l.current_hash l.current_hash).1 refl, (eq_iff hash hash).1 refl) refl)

  -- The record that `append` makes passes where the verifier stands at the ledger's end.
  new_record-passes :
      (m : MayFollow h p l entry_id row)
      → p.prev_hash ≡ l.current_hash
      → verify_entry h l.next_sequence (to_dict h (new_record h entry_id row l)) p
        ≡ ok (count_entry (to_dict h (new_record h entry_id row l)) m.now p)
  unfolding verify_entry new_record
  new_record-passes m tip =
      let e = to_dict h (new_record h entry_id row l) in
      passes (check_shape l.next_sequence e) (check_order (h.parse_time row.timestamp) p.prev_ts)
        (check_chain h e p) (check_governance e.payload) (λ now. count_entry e now p) m.now
        (ground arith) m.in_order (check_chain-new tip) m.governed

  -- A row that may follow, appended to a ledger that verifies, gives one that verifies, with the
  -- counts of that row added.
  pub append-IsVerified :
      (m : MayFollow h p l entry_id row)
      → IsVerified h l p
      → IsVerified h
          (append h appended entry_id row l).1
          (count_entry (to_dict h (new_record h entry_id row l)) m.now p)
  unfolding append keep count_entry new_record verify_from
  append-IsVerified m v =
      let n : 0 + length l.records ≡ l.next_sequence = ground (arith, v.numbered) in
      record {
        verified =
            verify_from-append h l.records (new_record h entry_id row l) 0 (start h) p v.verified
            ∙ ap (λ n. verify_from h n (to_dict h (new_record h entry_id row l) ∷ []) p) n
            ∙ verify_from_passed h l.next_sequence (to_dict h (new_record h entry_id row l)) [] p _
                (new_record-passes m v.tip);
        tip = refl;
        numbered =
            ground (arith, v.numbered, length-append l.records (new_record h entry_id row l ∷ []));
      }

-- One append after another, each of a row that may follow where the verifier then stands.
pub data Grown (h : Hashing) : Ledger → Progress → Type 0 where
  opened : Grown h (new_ledger h) (start h)
  extended :
      (l : Ledger) (p : Progress) (entry_id : String) (row : AuditRow)
      → Grown h l p
      → (m : MayFollow h p l entry_id row)
      → Grown h
          (append h appended entry_id row l).1
          (count_entry (to_dict h (new_record h entry_id row l)) m.now p)

Grown-IsVerified : (h : Hashing) (l : Ledger) (p : Progress) → Grown h l p → IsVerified h l p
unfolding verify_from
Grown-IsVerified h l p opened = record { verified = refl; tip = refl; numbered = refl }
Grown-IsVerified h l' p' (extended l p entry_id row g m) =
    append-IsVerified h p l entry_id row m (Grown-IsVerified h l p g)

-- A ledger that grew from a new one by appends, each of a governed row whose time is readable and
-- not before the last one's, verifies, and the verifier ends at the ledger's current hash.
pub verify_records-Grown :
    (h : Hashing) (l : Ledger) (p : Progress)
    → Grown h l p
    → (verify_records h (log_of h l.records) ≡ ok (scorecard (log_of h l.records) p))
      × (p.prev_hash ≡ l.current_hash)
unfolding verify_records
verify_records-Grown h l p g = let v = Grown-IsVerified h l p g in (rw v.verified refl, v.tip)
