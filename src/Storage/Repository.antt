-- ===== src/Storage/Repository.antt =====
-- `SqlAlchemyEventRepository` of src/pitchbot/storage/repository.py. `append` is cut after its read
-- of the aggregate: what other sessions commit before its own commit comes in between. The
-- constraints of the tables, which raise an `IntegrityError` at the commit, are tests.
pub mod Order
pub mod Laws
pub mod Appends
mod Tests
use Prim.Native.String.{String}
use pitch_bot.Prelude.{
  ℕ, zero, suc, ◌+◌, Bool, true, false, not, ◌&&◌, ◌||◌, Option, none, some, List, [], ◌∷◌, ◌++◌,
  map, any, take, length, leb, ltb, ◌==◌, is_none, nat_eq, string_eq, Dict, get, put, if◌then◌else◌,
}
use pitch_bot.Domain.Json.{JsonFields}
use pitch_bot.Storage.Models.{
  PrivacyState, active, AggregateRecord, EventRecord, Database, is_active,
}

pub data StorageError : Type 0 where
  concurrency_conflict aggregate_type_conflict aggregate_closed invalid_limit : StorageError

pub data Result {ℓ} (A : Type ℓ) : Type ℓ where
  ok : A → Result A
  err : StorageError → Result A

pub record AuditEvent : Type 0 where
  pub event_id : ℕ
  pub aggregate_id : ℕ
  pub aggregate_type : String
  pub aggregate_version : ℕ
  pub event_type : String
  pub payload : JsonFields
  pub occurred_at : ℕ

-- The arguments of `append`, with the time that it takes and the event's UUID.
pub record AppendRequest : Type 0 where
  pub event_id : ℕ
  pub aggregate_id : ℕ
  pub aggregate_type : String
  pub event_type : String
  pub payload : JsonFields
  pub expected_version : Option ℕ
  pub occurred_at : ℕ

-- What a session has read, and the event that it means to store.
pub record Pending : Type 0 where
  pub snapshot : Option AggregateRecord
  pub event : AuditEvent

abbrev pub version_of : Option AggregateRecord → ℕ
version_of none = 0
version_of (some a) = a.current_version

-- the first two checks of `append`
unfoldable pub check_aggregate : String → Option AggregateRecord → Option StorageError
check_aggregate type none = none
check_aggregate type (some a) =
    if not (string_eq.beq a.aggregate_type type)
    then some aggregate_type_conflict
    else if not (is_active a.privacy_state)
    then some aggregate_closed
    else none

abbrev pub unexpected : Option ℕ → ℕ → Bool
unexpected none v = false
unexpected (some expected) v = not (expected == v)

abbrev pub make_event : AppendRequest → ℕ → AuditEvent
make_event req v = record {
  event_id = req.event_id;
  aggregate_id = req.aggregate_id;
  aggregate_type = req.aggregate_type;
  aggregate_version = v + 1;
  event_type = req.event_type;
  payload = req.payload;
  occurred_at = req.occurred_at;
}

unfoldable pub append_begin : AppendRequest → Database → Result Pending
append_begin req db =
    let seen = get req.aggregate_id db.aggregates in
    elim (check_aggregate req.aggregate_type seen) [
      | some e ↦ err e
      | none ↦
          if unexpected req.expected_version (version_of seen)
          then err concurrency_conflict
          else ok (record { snapshot = seen; event = make_event req (version_of seen) })
    ]

abbrev pub row_of : AuditEvent → EventRecord
row_of e = record {
  event_id = e.event_id;
  aggregate_id = e.aggregate_id;
  aggregate_type = e.aggregate_type;
  aggregate_version = e.aggregate_version;
  event_type = e.event_type;
  payload = e.payload;
  occurred_at = e.occurred_at;
  anonymized_at = none;
}

-- the unique constraints of the event table
unfoldable pub duplicates : AuditEvent → List EventRecord → Bool
duplicates e rows =
    any
      (λ r.
        (r.event_id == e.event_id)
        || ((r.aggregate_id == e.aggregate_id) && (r.aggregate_version == e.aggregate_version)))
      rows

-- the session's commit, with the aggregate's row that it writes
unfoldable pub commit : AuditEvent → AggregateRecord → Database → Result AuditEvent × Database
commit e row db = if duplicates e db.events then (err concurrency_conflict, db) else (
  ok e,
  record db {
    aggregates = put e.aggregate_id row db.aggregates;
    events = db.events ++ row_of e ∷ [];
  },
)

-- the `where` of the update finds the row
abbrev pub still_current : AuditEvent → AggregateRecord → AggregateRecord → Bool
still_current e seen row =
    string_eq.beq row.aggregate_type e.aggregate_type
    && ((row.current_version == seen.current_version) && is_active row.privacy_state)

-- the error of an update that has found no row
abbrev pub refusal : Option AggregateRecord → StorageError
refusal none = concurrency_conflict
refusal (some row) = if is_active row.privacy_state then concurrency_conflict else aggregate_closed

unfoldable pub insert_new :
    AuditEvent → Option AggregateRecord → Database → Result AuditEvent × Database
insert_new e (some row) db = (err concurrency_conflict, db)
insert_new e none db =
    commit e
      (record {
        aggregate_type = e.aggregate_type;
        current_version = e.aggregate_version;
        privacy_state = active;
        created_at = e.occurred_at;
        updated_at = e.occurred_at;
      })
      db

unfoldable pub update_seen :
    AuditEvent → AggregateRecord → Option AggregateRecord → Database → Result AuditEvent × Database
update_seen e seen none db = (err concurrency_conflict, db)
update_seen e seen (some row) db =
    if still_current e seen row
    then commit e (record row { current_version = e.aggregate_version; updated_at = e.occurred_at })
        db
    else (err (refusal (some row)), db)

unfoldable pub finish_from :
    Option AggregateRecord → AuditEvent → Database → Result AuditEvent × Database
finish_from none e db = insert_new e (get e.aggregate_id db.aggregates) db
finish_from (some seen) e db = update_seen e seen (get e.aggregate_id db.aggregates) db

unfoldable pub append_finish : Pending → Database → Result AuditEvent × Database
unfolding finish_from
append_finish p db = finish_from p.snapshot p.event db

-- the whole call, when no other session commits in between
unfoldable pub append : AppendRequest → Database → Result AuditEvent × Database
append req db = elim (append_begin req db) [ err e ↦ (err e, db) | ok p ↦ append_finish p db ]

abbrev pub to_domain : EventRecord → AuditEvent
to_domain r = record {
  event_id = r.event_id;
  aggregate_id = r.aggregate_id;
  aggregate_type = r.aggregate_type;
  aggregate_version = r.aggregate_version;
  event_type = r.event_type;
  payload = r.payload;
  occurred_at = r.occurred_at;
}

unfoldable pub of_aggregate : ℕ → List EventRecord → List EventRecord
of_aggregate id [] = []
of_aggregate id (r ∷ rs) =
    let rest = of_aggregate id rs in if r.aggregate_id == id then r ∷ rest else rest

-- `order_by(EventRecord.aggregate_version.asc())`
unfoldable pub insert_by_version : EventRecord → List EventRecord → List EventRecord
insert_by_version r [] = r ∷ []
insert_by_version r (s ∷ rest) =
    let further = s ∷ insert_by_version r rest in
    if leb r.aggregate_version s.aggregate_version then r ∷ s ∷ rest else further

unfoldable pub by_version : List EventRecord → List EventRecord
by_version [] = []
by_version (r ∷ rs) = insert_by_version r (by_version rs)

abbrev pub limited : Option ℕ → List EventRecord → List EventRecord
limited none rows = rows
limited (some n) rows = take n rows

abbrev pub limit_ok : Option ℕ → Bool
limit_ok none = true
limit_ok (some n) = leb 1 n && leb n 10000

unfoldable pub read : ℕ → Option ℕ → Database → Result (List AuditEvent)
read id limit db =
    if not (limit_ok limit)
    then err invalid_limit
    else ok (map to_domain (limited limit (by_version (of_aggregate id db.events))))

pub record AggregateStatus : Type 0 where
  pub aggregate_type : String
  pub current_version : ℕ
  pub privacy_state : PrivacyState

unfoldable pub status : ℕ → Database → Option AggregateStatus
status id db = elim (get id db.aggregates) [
  | none ↦ none
  | some a ↦ some (record {
    aggregate_type = a.aggregate_type;
    current_version = a.current_version;
    privacy_state = a.privacy_state;
  })
]

unfoldable pub current_version : ℕ → Database → ℕ
current_version id db = elim (status id db) [ none ↦ 0 | some s ↦ s.current_version ]
