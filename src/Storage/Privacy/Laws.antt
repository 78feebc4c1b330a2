-- ===== src/Storage/Privacy/Laws.antt =====
-- What cannot be undone, and what retention takes.
use pitch_bot.Prelude.{
  ℕ, ◌+◌, ◌≡◌, ◌≢◌, refl, ap, arith, Bool, true, false, Option, none, some, List, [], ◌∷◌, ◌==◌,
  length, member, nat_eq, string_eq, get, get-put, Bool-cases, inl, inr,
}
use pitch_bot.Storage.Models.{anonymized, hard_deleted, AggregateRecord, EventRecord, Database}
use pitch_bot.Storage.Repository.{
  Result, ok, err, AuditEvent, AppendRequest, append_begin, append_finish, append, check_aggregate,
  read,
}
use pitch_bot.Storage.Repository.Laws.{erased, Outcome, append_begin-Follows, append_finish-Outcome}
use pitch_bot.Storage.Repository.Appends.{read_ascending}
use pitch_bot.Storage.Privacy.{
  expired, protected_event_types, count_where, delete_where, close_aggregate, anonymize_row,
  anonymize, hard_delete_row, hard_delete, purge_expired,
}
use pitch_bot.Storage.Privacy.Rows.{length-delete_where}
use pitch_bot.Storage.Privacy.Reach.{
  Step, appends, anonymizes, deletes, purges, Reach, Reach_keeps_order,
}

-- What comes after a state of the store.
pub data Later (s : Database) : Database → Type 0 where
  now : Later s s
  then_ : {t u : Database} → Later s t → Step t u → Later s u

abbrev IsErased : ℕ → Database → Type 0
IsErased id db = erased (get id db.aggregates) ≡ true

outcome_keeps_IsErased :
    (id : ℕ) (e : AuditEvent) (db : Database) (out : Result AuditEvent × Database)
    → Outcome e db out
    → IsErased id db
    → IsErased id out.1
unfolding Outcome
outcome_keeps_IsErased id e db (err x, db') o h = rw o h
outcome_keeps_IsErased id e db (ok x, db') o h = elim (Bool-cases (id == e.aggregate_id)) [
  | inl same ↦
      let q : id ≡ e.aggregate_id = ground arith in
      ground (arith, o.1.was_open, ap (λ (j : ℕ). erased (get j db.aggregates)) q)
  | inr other ↦ ground (arith, o.1.others id)
]

anonymize_row_keeps_IsErased :
    (j operation_id id at : ℕ) (a : Option AggregateRecord) (db : Database)
    → get id db.aggregates ≡ a
    → IsErased j db
    → IsErased j (anonymize_row operation_id id at a db).1
unfolding anonymize_row close_aggregate
anonymize_row_keeps_IsErased j operation_id id at none db e h = h
anonymize_row_keeps_IsErased j operation_id id at (some a) db e h =
    ground
      (arith, get-put id j (record a { privacy_state = anonymized; updated_at = at }) db.aggregates)

hard_delete_row_keeps_IsErased :
    (j operation_id id at : ℕ) (a : Option AggregateRecord) (db : Database)
    → get id db.aggregates ≡ a
    → IsErased j db
    → IsErased j (hard_delete_row operation_id id at a db).1
unfolding hard_delete_row close_aggregate
hard_delete_row_keeps_IsErased j operation_id id at none db e h = h
hard_delete_row_keeps_IsErased j operation_id id at (some a) db e h =
    ground (
      arith,
      get-put id j (record a { privacy_state = hard_deleted; updated_at = at }) db.aggregates,
    )

step_keeps_IsErased : {db db' : Database} (id : ℕ) → Step db db' → IsErased id db → IsErased id db'
unfolding anonymize hard_delete purge_expired
step_keeps_IsErased {db} id (appends {earlier} req p r b) h =
    outcome_keeps_IsErased id p.event db (append_finish p db)
      (append_finish-Outcome p db (append_begin-Follows req earlier p b)) h
step_keeps_IsErased {db} id (anonymizes operation_id j at) h =
    anonymize_row_keeps_IsErased id operation_id j at (get j db.aggregates) db refl h
step_keeps_IsErased {db} id (deletes operation_id j at) h =
    hard_delete_row_keeps_IsErased id operation_id j at (get j db.aggregates) db refl h
step_keeps_IsErased id (purges cutoff dry_run) h = ground arith

Later-IsErased :
    {s t : Database} (id : ℕ) → Reach s → IsErased id s → Later s t → Reach t × IsErased id t
Later-IsErased id r h now = (r, h)
Later-IsErased id r h (then_ l st) =
    let before = Later-IsErased id r h l in
    (Reach.next before.0 st, step_keeps_IsErased id st before.1)

refuses_erased :
    (req : AppendRequest) (db : Database) (e : AuditEvent)
    → IsErased req.aggregate_id db
    → (append req db).0 ≢ ok e
unfolding append append_begin check_aggregate
refuses_erased req db e h f = ground arith

-- A hard-deleted aggregate stays so: whatever the sessions do afterwards, it reads as empty and
-- accepts no append.
pub erased_for_good :
    {s t : Database} (id : ℕ)
    → Reach s
    → erased (get id s.aggregates) ≡ true
    → Later s t
    → (read id none t ≡ ok [])
      × ((req : AppendRequest) → req.aggregate_id ≡ id → (e : AuditEvent) → (append req t).0 ≢ ok e)
erased_for_good {t} id r h l =
    let after = Later-IsErased id r h l in
    let inv = Reach_keeps_order after.0 in
    (
      rw (read_ascending id t inv, inv.gone id after.1) refl,
      λ req q e. refuses_erased req t e (rw q after.1),
    )

abbrev pub is_protected : EventRecord → Bool
is_protected r = member r.event_type protected_event_types

delete_where_leaves_none :
    (test : EventRecord → Bool) (rs : List EventRecord)
    → count_where test (delete_where test rs) ≡ 0
unfolding delete_where count_where
delete_where_leaves_none test [] = refl
delete_where_leaves_none test (r ∷ rs) = ground (arith, delete_where_leaves_none test rs)

purge_spares_protected :
    (cutoff : ℕ) (rs : List EventRecord)
    → count_where is_protected (delete_where (expired cutoff) rs) ≡ count_where is_protected rs
unfolding delete_where count_where
purge_spares_protected cutoff [] = refl
purge_spares_protected cutoff (r ∷ rs) = ground (arith, purge_spares_protected cutoff rs)

-- A purge reports how many events are expired, in a dry run too, which changes nothing. A real one
-- takes as many events as it reports, leaves no expired one, and takes no consent revocation or
-- opt-out.
pub purge_exact :
    (cutoff : ℕ) (db : Database)
    → let dry = purge_expired cutoff true db in
      let real = purge_expired cutoff false db in
      (dry ≡ (real.0, db))
      × (length real.1.events + real.0 ≡ length db.events)
      × (count_where (expired cutoff) real.1.events ≡ 0)
      × (count_where is_protected real.1.events ≡ count_where is_protected db.events)
unfolding purge_expired
purge_exact cutoff db = ground (
  arith,
  length-delete_where (expired cutoff) db.events,
  delete_where_leaves_none (expired cutoff) db.events,
  purge_spares_protected cutoff db.events,
)
