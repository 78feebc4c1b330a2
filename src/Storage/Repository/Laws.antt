-- ===== src/Storage/Repository/Laws.antt =====
-- What an append does, whatever other sessions have committed since it read.
use pitch_bot.Prelude.{
  ℕ, ◌+◌, ◌≡◌, ◌≢◌, refl, arith, Bool, true, false, Option, none, some, [], ◌∷◌, ◌++◌, nat_eq,
  string_eq, get, put, get-put, if◌then◌else◌, Bool-cases, inl, inr,
}
use pitch_bot.Storage.Models.{AggregateRecord, Database, empty_database, is_hard_deleted}
use pitch_bot.Storage.Repository.{
  StorageError, Result, ok, err, AuditEvent, AppendRequest, Pending, version_of, append_begin,
  row_of, duplicates, commit, still_current, insert_new, update_seen, finish_from, append_finish,
  of_aggregate, concurrency_conflict,
}
use pitch_bot.Storage.Repository.Order.{Ascends}

abbrev pub version_in : ℕ → Database → ℕ
version_in id db = version_of (get id db.aggregates)

abbrev pub erased : Option AggregateRecord → Bool
erased none = false
erased (some a) = is_hard_deleted a.privacy_state

-- The stored versions of each aggregate ascend up to its current version, and a hard-deleted one has
-- no rows.
pub record Inv (db : Database) : Type 0 where
  pub ordered : (id : ℕ) → Ascends 0 (of_aggregate id db.events) (version_in id db)
  pub gone : (id : ℕ) → erased (get id db.aggregates) ≡ true → of_aggregate id db.events ≡ []

pub empty_database-Inv : Inv empty_database
unfolding of_aggregate get
empty_database-Inv = record { ordered = λ id. omega arith; gone = λ id h. refl }

-- What a session means to store follows what it has read.
pub Follows : Pending → Type 0
Follows p = p.event.aggregate_version ≡ version_of p.snapshot + 1

pub append_begin-Follows :
    (req : AppendRequest) (db : Database) (p : Pending) → append_begin req db ≡ ok p → Follows p
unfolding append_begin Follows
append_begin-Follows req db p h = ground arith

-- What a commit that succeeds has written.
pub record Stored (e : AuditEvent) (db db' : Database) : Type 0 where
  pub rows : db'.events ≡ db.events ++ row_of e ∷ []
  pub next : e.aggregate_version ≡ version_in e.aggregate_id db + 1
  pub current : version_in e.aggregate_id db' ≡ e.aggregate_version
  pub others : (id : ℕ) → id ≢ e.aggregate_id → get id db'.aggregates ≡ get id db.aggregates
  pub was_open : erased (get e.aggregate_id db.aggregates) ≡ false
  pub open_ : erased (get e.aggregate_id db'.aggregates) ≡ false

-- A commit stores the event, or changes nothing.
unfoldable pub Outcome : AuditEvent → Database → Result AuditEvent × Database → Type 0
Outcome e db (ok x, db') = (x ≡ e) × Stored e db db'
Outcome e db (err x, db') = db' ≡ db

refused-Outcome : (e : AuditEvent) (x : StorageError) (db : Database) → Outcome e db (err x, db)
unfolding Outcome
refused-Outcome e x db = refl

written-Stored :
    (e : AuditEvent) (row : AggregateRecord) (db : Database)
    → e.aggregate_version ≡ version_in e.aggregate_id db + 1
    → row.current_version ≡ e.aggregate_version
    → is_hard_deleted row.privacy_state ≡ false
    → erased (get e.aggregate_id db.aggregates) ≡ false
    → Stored e db (record db {
      aggregates = put e.aggregate_id row db.aggregates;
      events = db.events ++ row_of e ∷ [];
    })
written-Stored e row db next current open_ was = record {
  rows = refl;
  next = next;
  current = ground (arith, get-put e.aggregate_id e.aggregate_id row db.aggregates);
  others = λ id n. ground (arith, get-put e.aggregate_id id row db.aggregates);
  was_open = was;
  open_ = ground (arith, get-put e.aggregate_id e.aggregate_id row db.aggregates);
}

commit-Outcome :
    (e : AuditEvent) (row : AggregateRecord) (db : Database)
    → e.aggregate_version ≡ version_in e.aggregate_id db + 1
    → row.current_version ≡ e.aggregate_version
    → is_hard_deleted row.privacy_state ≡ false
    → erased (get e.aggregate_id db.aggregates) ≡ false
    → Outcome e db (commit e row db)
unfolding commit Outcome
commit-Outcome e row db next current open_ was =
    let w = written-Stored e row db next current open_ was in
    elim (duplicates e db.events)
      as (λ b. Outcome e db (
        if b then (err concurrency_conflict, db) else (
          ok e,
          record db {
            aggregates = put e.aggregate_id row db.aggregates;
            events = db.events ++ row_of e ∷ [];
          },
        ))) [ true ↦ refl | false ↦ (refl, w) ]

insert_new-Outcome :
    (e : AuditEvent) (found : Option AggregateRecord) (db : Database)
    → get e.aggregate_id db.aggregates ≡ found
    → e.aggregate_version ≡ 1
    → Outcome e db (insert_new e found db)
unfolding insert_new
insert_new-Outcome e (some row) db f v = refused-Outcome e concurrency_conflict db
insert_new-Outcome e none db f v = commit-Outcome e _ db (ground arith) refl refl (ground arith)

update_seen-Outcome :
    (e : AuditEvent) (seen : AggregateRecord) (found : Option AggregateRecord) (db : Database)
    → get e.aggregate_id db.aggregates ≡ found
    → e.aggregate_version ≡ seen.current_version + 1
    → Outcome e db (update_seen e seen found db)
unfolding update_seen
update_seen-Outcome e seen none db f v = refused-Outcome e concurrency_conflict db
update_seen-Outcome e seen (some row) db f v = elim (Bool-cases (still_current e seen row)) [
  | inr stale ↦ rw (stale) (refused-Outcome e _ db)
  | inl fresh ↦ rw (fresh) (commit-Outcome e _ db (ground arith) refl (ground arith) (ground arith))
]

finish_from-Outcome :
    (seen : Option AggregateRecord) (e : AuditEvent) (db : Database)
    → e.aggregate_version ≡ version_of seen + 1
    → Outcome e db (finish_from seen e db)
unfolding finish_from
finish_from-Outcome none e db h = insert_new-Outcome e _ db refl (omega (arith, h))
finish_from-Outcome (some a) e db h = update_seen-Outcome e a _ db refl h

pub append_finish-Outcome :
    (p : Pending) (db : Database) → Follows p → Outcome p.event db (append_finish p db)
unfolding append_finish Follows
append_finish-Outcome p db h = finish_from-Outcome p.snapshot p.event db h
