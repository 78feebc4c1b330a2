-- ===== src/Storage/Privacy/Reach.antt =====
-- The transactions of any number of sessions, in any order: what the store keeps true.
use pitch_bot.Prelude.{
  ℕ, ◌≡◌, refl, arith, Bool, true, not, ◌&&◌, Option, none, some, List, [], ◌==◌, nat_eq, get, put,
  get-put, if_holds, Bool-cases, inl, inr,
}
use pitch_bot.Storage.Models.{
  PrivacyState, anonymized, hard_deleted, AggregateRecord, EventRecord, Database, empty_database,
  is_active, is_hard_deleted,
}
use pitch_bot.Storage.Repository.{
  Result, ok, err, AuditEvent, AppendRequest, Pending, version_of, append_begin, append_finish,
  of_aggregate,
}
use pitch_bot.Storage.Repository.Order.{Ascends}
use pitch_bot.Storage.Repository.Laws.{
  version_in, erased, Inv, empty_database-Inv, Outcome, append_begin-Follows, append_finish-Outcome,
}
use pitch_bot.Storage.Repository.Appends.{Stored-Inv}
use pitch_bot.Storage.Privacy.{
  to_anonymize, in_aggregate, expired, count_where, delete_where, anonymize_rows, close_aggregate,
  anonymize_row, anonymize, hard_delete_row, hard_delete, purge_expired,
}
use pitch_bot.Storage.Privacy.Rows.{
  Ascends-delete_where, Ascends-anonymize_rows, delete_where-own, delete_where-empty,
  anonymize_rows-empty,
}

-- One transaction: the commit of an append that has read any state that the store could have had,
-- or a privacy operation.
mutual
  pub data Step : Database → Database → Type 0 where
    appends :
        {earlier db : Database} (req : AppendRequest) (p : Pending)
        → Reach earlier
        → append_begin req earlier ≡ ok p
        → Step db (append_finish p db).1
    anonymizes :
        {db : Database} (operation_id id now : ℕ) → Step db (anonymize operation_id id now db).1
    deletes :
        {db : Database} (operation_id id now : ℕ) → Step db (hard_delete operation_id id now db).1
    purges :
        {db : Database} (cutoff : ℕ) (dry_run : Bool) → Step db (purge_expired cutoff dry_run db).1

  pub data Reach : Database → Type 0 where
    start : Reach empty_database
    next : {db db' : Database} → Reach db → Step db db' → Reach db'

outcome-Inv :
    (e : AuditEvent) (db : Database) (out : Result AuditEvent × Database)
    → Outcome e db out
    → Inv db
    → Inv out.1
unfolding Outcome
outcome-Inv e db (ok x, db') h inv = Stored-Inv e db db' h.1 inv
outcome-Inv e db (err x, db') h inv = rw h inv

-- the aggregate's row keeps its version, and the others stay
closed_version :
    (id j : ℕ) (state : PrivacyState) (a : AggregateRecord) (now : ℕ) (db : Database)
    → get id db.aggregates ≡ some a
    → version_of
        (get j (put id (record a { privacy_state = state; updated_at = now }) db.aggregates))
      ≡ version_in j db
closed_version id j state a now db e =
    ground
      (arith, get-put id j (record a { privacy_state = state; updated_at = now }) db.aggregates)

-- an aggregate's new state, with rows that are still in order
same_id : (id j : ℕ) → (id == j) ≡ true → j ≡ id
same_id id j h = ground arith

closed-Inv :
    (operation_id id : ℕ) (state : PrivacyState) (a : AggregateRecord) (count now : ℕ)
    (db : Database) (rows : List EventRecord)
    → get id db.aggregates ≡ some a
    → ((j : ℕ) → Ascends 0 (of_aggregate j rows) (version_in j db))
    → ((j : ℕ) → erased (get j db.aggregates) ≡ true → of_aggregate j rows ≡ [])
    → (is_hard_deleted state ≡ true → of_aggregate id rows ≡ [])
    → Inv (record (close_aggregate operation_id id state a count now db) { events = rows })
unfolding close_aggregate
closed-Inv operation_id id state a count now db rows e o g own = record {
  ordered = λ j. rw (closed_version id j state a now db e) (o j);
  gone = λ j h. elim (Bool-cases (id == j)) [
    | inl same ↦ rw (same_id id j same) (
        own (
          ground (
            arith,
            get-put id j (record a { privacy_state = state; updated_at = now }) db.aggregates,
          )))
    | inr other ↦ g j (
        ground (
          arith,
          get-put id j (record a { privacy_state = state; updated_at = now }) db.aggregates,
        ))
  ];
}

purge-Inv :
    (cutoff : ℕ) (dry_run : Bool) (db : Database) → Inv db → Inv (purge_expired cutoff dry_run db).1
unfolding purge_expired
purge-Inv cutoff dry_run db inv =
    if_holds Inv (not dry_run && not (count_where (expired cutoff) db.events == 0))
      (record db { events = delete_where (expired cutoff) db.events }) db
      (record {
        ordered = λ id.
            Ascends-delete_where (expired cutoff) id 0 db.events (version_in id db)
              (inv.ordered id);
        gone = λ id h. delete_where-empty (expired cutoff) id db.events (inv.gone id h);
      })
      inv

anonymize_row-Inv :
    (operation_id id now : ℕ) (a : Option AggregateRecord) (db : Database)
    → get id db.aggregates ≡ a
    → Inv db
    → Inv (anonymize_row operation_id id now a db).1
unfolding anonymize_row
anonymize_row-Inv operation_id id now none db e inv = inv
anonymize_row-Inv operation_id id now (some a) db e inv =
    elim (Bool-cases (is_active a.privacy_state)) [
      | inr closed ↦ rw (closed) inv
      | inl opened ↦ rw (opened) (
          closed-Inv operation_id id anonymized a (count_where (to_anonymize id) db.events) now db
            (anonymize_rows id now db.events) e
            (λ j. Ascends-anonymize_rows id now j 0 db.events (version_in j db) (inv.ordered j))
            (λ j h. anonymize_rows-empty id now j db.events (inv.gone j h)) (λ h. ground arith))
    ]

hard_delete_row-Inv :
    (operation_id id now : ℕ) (a : Option AggregateRecord) (db : Database)
    → get id db.aggregates ≡ a
    → Inv db
    → Inv (hard_delete_row operation_id id now a db).1
unfolding hard_delete_row
hard_delete_row-Inv operation_id id now none db e inv = inv
hard_delete_row-Inv operation_id id now (some a) db e inv =
    elim (Bool-cases (not (is_hard_deleted a.privacy_state))) [
      | inr closed ↦ rw (closed) inv
      | inl opened ↦ rw (opened) (
          closed-Inv operation_id id hard_deleted a (count_where (in_aggregate id) db.events) now db
            (delete_where (in_aggregate id) db.events) e
            (λ j.
              Ascends-delete_where (in_aggregate id) j 0 db.events (version_in j db)
                (inv.ordered j))
            (λ j h. delete_where-empty (in_aggregate id) j db.events (inv.gone j h))
            (λ h. delete_where-own id db.events))
    ]

pub Step-Inv : {db db' : Database} → Step db db' → Inv db → Inv db'
unfolding anonymize hard_delete
Step-Inv {db} (appends {earlier} req p r b) inv =
    outcome-Inv p.event db (append_finish p db)
      (append_finish-Outcome p db (append_begin-Follows req earlier p b)) inv
Step-Inv {db} (anonymizes operation_id id now) inv =
    anonymize_row-Inv operation_id id now (get id db.aggregates) db refl inv
Step-Inv {db} (deletes operation_id id now) inv =
    hard_delete_row-Inv operation_id id now (get id db.aggregates) db refl inv
Step-Inv {db} (purges cutoff dry_run) inv = purge-Inv cutoff dry_run db inv

-- Whatever the sessions do, and however old the states are that their appends have read, the stored
-- versions of each aggregate ascend up to its current one, in the order in which they were stored,
-- and a hard-deleted aggregate has no events.
pub Reach_keeps_order : {db : Database} → Reach db → Inv db
Reach_keeps_order start = empty_database-Inv
Reach_keeps_order (next r st) = Step-Inv st (Reach_keeps_order r)
