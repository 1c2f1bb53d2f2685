-- ===== src/Audit/Ledger.antt =====
-- audit/ledger.py: the state of the ledger and `append`.
use inforsight.Common.{ℕ, ◌+◌, String, Bool, true, false, ◌≡◌, refl, List, [], ◌∷◌, ◌++◌}
use inforsight.Workflow.Service.{AuditRow, AuditPort}
use inforsight.Audit.Entries.{AuditRecord, Hashing, preimage, payload_dict}

-- How an append ends: done, refused before anything is kept (a busy writer, a stale checkpoint, a
-- failed write of the log), or failed at the checkpoint, after the record is in the log.
pub data Append : Type 0 where
  appended refused unchecked : Append

-- The fields that `append` writes; `next_sequence` is `_current_sequence + 1`.
pub record Ledger : Type 0 where
  pub records : List AuditRecord
  pub next_sequence : ℕ
  pub current_hash : String

abbrev pub new_ledger : Hashing → Ledger
new_ledger h = record { records = []; next_sequence = 0; current_hash = h.genesis_hash }

unfoldable pub new_record : Hashing → String → AuditRow → Ledger → AuditRecord
new_record h entry_id row l = record {
  audit_entry_id = entry_id;
  sequence_number = l.next_sequence;
  row = row;
  prev_hash = l.current_hash;
  entry_hash =
      h.compute_sha256
        (preimage h l.current_hash (payload_dict h entry_id l.next_sequence row l.current_hash));
}

unfoldable pub keep : AuditRecord → Ledger → Ledger
keep r l = record {
  records = l.records ++ r ∷ [];
  next_sequence = l.next_sequence + 1;
  current_hash = r.entry_hash;
}

-- AuditLedger.append: whether it returned, and the ledger then.
unfoldable pub append : Hashing → Append → String → AuditRow → Ledger → Bool × Ledger
unfolding keep new_record
append h appended entry_id row l = (true, keep (new_record h entry_id row l) l)
append h refused entry_id row l = (false, l)
append h unchecked entry_id row l = (false, keep (new_record h entry_id row l) l)

abbrev pub rows_of : List AuditRecord → List AuditRow
rows_of [] = []
rows_of (r ∷ rs) = r.row ∷ rows_of rs

rows_of-append :
    (rs : List AuditRecord) (r : AuditRecord) → rows_of (rs ++ r ∷ []) ≡ rows_of rs ++ r.row ∷ []
rows_of-append [] r = refl
rows_of-append (x ∷ rs) r = rw (rows_of-append rs r) refl

pub append-rows :
    (h : Hashing) (a : Append) (entry_id : String) (row : AuditRow) (l : Ledger)
    → (append h a entry_id row l).0 ≡ true
    → rows_of (append h a entry_id row l).1.records ≡ rows_of l.records ++ row ∷ []
unfolding append keep new_record
append-rows h appended entry_id row l e = rows_of-append l.records (new_record h entry_id row l)
append-rows h refused entry_id row l e = cc
append-rows h unchecked entry_id row l e = cc

-- The ledger as the service uses it.
unfoldable pub ledger_port : Hashing → Append → (AuditRow → String) → AuditPort Ledger
unfolding append
ledger_port h a entry_id = record {
  append = λ row l. append h a (entry_id row) row l;
  rows = λ l. rows_of l.records;
  append-rows = λ row l e. append-rows h a (entry_id row) row l e;
}
