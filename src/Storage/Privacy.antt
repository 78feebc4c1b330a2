-- ===== src/Storage/Privacy.antt =====
-- `SqlAlchemyPrivacyRepository` of src/pitchbot/storage/repository.py. Each operation is one
-- transaction; the number of rows that a statement matched is counted on the table that it found.
pub mod Rows
pub mod Reach
pub mod Laws
mod Tests
use Prim.Native.String.{String}
use pitch_bot.Prelude.{
  ℕ, ◌+◌, Bool, true, false, not, ◌&&◌, Option, none, some, List, [], ◌∷◌, ◌++◌, map, length, ltb,
  ◌==◌, is_none, nat_eq, string_eq, member, Dict, get, put, if◌then◌else◌,
}
use pitch_bot.Domain.Json.{boolean, JsonFields, end, field}
use pitch_bot.Storage.Models.{
  PrivacyState, anonymized, hard_deleted, AggregateRecord, EventRecord, PrivacyOperationRecord,
  Database, is_active, is_hard_deleted,
}
use pitch_bot.Storage.Repository.{Result, ok, err, AuditEvent, read}
use pitch_bot.Storage.Redaction.{redact_fields, default_sensitive_keys}

abbrev pub protected_event_types : List String
protected_event_types = "consent.revoked" ∷ "lead.opted_out" ∷ []

-- `{"anonymized": True}`
abbrev pub anonymous_payload : JsonFields
anonymous_payload = field "anonymized" (boolean true) end

-- the `where` of an update of events
abbrev pub to_anonymize : ℕ → EventRecord → Bool
to_anonymize id r = (r.aggregate_id == id) && is_none r.anonymized_at

unfoldable pub anonymize_rows : ℕ → ℕ → List EventRecord → List EventRecord
anonymize_rows id now [] = []
anonymize_rows id now (r ∷ rs) =
    (if to_anonymize id r
      then record r { payload = anonymous_payload; anonymized_at = some now }
      else r)
    ∷ anonymize_rows id now rs

unfoldable pub count_where : (EventRecord → Bool) → List EventRecord → ℕ
count_where test [] = 0
count_where test (r ∷ rs) = (if test r then 1 else 0) + count_where test rs

unfoldable pub delete_where : (EventRecord → Bool) → List EventRecord → List EventRecord
delete_where test [] = []
delete_where test (r ∷ rs) = let rest = delete_where test rs in if test r then rest else r ∷ rest

abbrev pub in_aggregate : ℕ → EventRecord → Bool
in_aggregate id r = r.aggregate_id == id

abbrev pub operation_row : ℕ → ℕ → PrivacyState → ℕ → ℕ → PrivacyOperationRecord
operation_row operation_id id operation count now = record {
  operation_id = operation_id;
  aggregate_id = id;
  operation = operation;
  affected_event_count = count;
  occurred_at = now;
}

-- the aggregate's row goes to its new state, and the operation is noted
unfoldable pub close_aggregate :
    ℕ → ℕ → PrivacyState → AggregateRecord → ℕ → ℕ → Database → Database
close_aggregate operation_id id state a count now db = record db {
  aggregates = put id (record a { privacy_state = state; updated_at = now }) db.aggregates;
  operations = db.operations ++ operation_row operation_id id state count now ∷ [];
}

unfoldable pub anonymize_row : ℕ → ℕ → ℕ → Option AggregateRecord → Database → ℕ × Database
anonymize_row operation_id id now none db = (0, db)
anonymize_row operation_id id now (some a) db =
    let affected = count_where (to_anonymize id) db.events in
    if is_active a.privacy_state
    then (
      affected,
      record (close_aggregate operation_id id anonymized a affected now db) {
        events = anonymize_rows id now db.events;
      },
    )
    else (0, db)

unfoldable pub anonymize : ℕ → ℕ → ℕ → Database → ℕ × Database
anonymize operation_id id now db = anonymize_row operation_id id now (get id db.aggregates) db

unfoldable pub hard_delete_row : ℕ → ℕ → ℕ → Option AggregateRecord → Database → (ℕ × ℕ) × Database
hard_delete_row operation_id id now none db = ((0, 0), db)
hard_delete_row operation_id id now (some a) db =
    let deleted = count_where (in_aggregate id) db.events in
    if not (is_hard_deleted a.privacy_state)
    then (
      (deleted, 1),
      record (close_aggregate operation_id id hard_deleted a deleted now db) {
        events = delete_where (in_aggregate id) db.events;
      },
    )
    else ((0, 0), db)

unfoldable pub hard_delete : ℕ → ℕ → ℕ → Database → (ℕ × ℕ) × Database
hard_delete operation_id id now db = hard_delete_row operation_id id now (get id db.aggregates) db

abbrev pub expired : ℕ → EventRecord → Bool
expired cutoff r = ltb r.occurred_at cutoff && not (member r.event_type protected_event_types)

unfoldable pub purge_expired : ℕ → Bool → Database → ℕ × Database
purge_expired cutoff dry_run db =
    let count = count_where (expired cutoff) db.events in
    (
      count,
      if not dry_run && not (count == 0)
          then record db { events = delete_where (expired cutoff) db.events }
          else db,
    )

unfoldable pub history : ℕ → List PrivacyOperationRecord → List PrivacyOperationRecord
history id [] = []
history id (o ∷ os) = let rest = history id os in if o.aggregate_id == id then o ∷ rest else rest

abbrev redact_event : (String → String) → AuditEvent → AuditEvent
redact_event casefold e = record e {
  payload = redact_fields casefold default_sensitive_keys e.payload;
}

-- the dicts of the export have the fields of the event
unfoldable pub export_redacted : (String → String) → ℕ → Database → Result (List AuditEvent)
export_redacted casefold id db = elim (read id none db) [
  | err e ↦ err e
  | ok events ↦ ok (map (redact_event casefold) events)
]
