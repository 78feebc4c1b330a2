-- ===== src/Storage/Repository/Appends.antt =====
-- The appends that succeed, seen through the repository's own reads.
use Prim.Native.String.{String}
use pitch_bot.Prelude.{
  ℕ, ◌+◌, ◌≡◌, ◌≢◌, ◌↔◌, ◌⊎◌, refl, sym, ap, ◌∙◌, arith, true, false, Option, none, some, List, [],
  ◌∷◌, ◌++◌, map, any, ◌==◌, nat_eq, string_eq, get, Bool-cases, inl, inr,
}
use mathlib.Core.List.{map-append, append-nil}
use pitch_bot.Storage.Models.{active, AggregateRecord, Database}
use pitch_bot.Storage.Repository.{
  ok, AuditEvent, AppendRequest, Pending, version_of, check_aggregate, make_event, append_begin,
  row_of, duplicates, commit, insert_new, update_seen, append_finish, append, to_domain,
  of_aggregate, read, status, current_version,
}
use pitch_bot.Storage.Repository.Order.{
  Ascends, of_aggregate-append, Ascends-append, by_version-Ascends, duplicates-Ascends,
}
use pitch_bot.Storage.Repository.Laws.{
  erased, version_in, Inv, Stored, Outcome, append_begin-Follows, append_finish-Outcome,
}

-- What `read` gives without a limit, in a database whose versions ascend.
pub read_ascending :
    (id : ℕ) (db : Database)
    → Inv db
    → read id none db ≡ ok (map to_domain (of_aggregate id db.events))
unfolding read
read_ascending id db inv =
    rw (by_version-Ascends 0 (of_aggregate id db.events) (version_in id db) (inv.ordered id)) refl

current_version-version_in : (id : ℕ) (db : Database) → current_version id db ≡ version_in id db
unfolding current_version status
current_version-version_in id db = ground arith

Stored-same :
    (e : AuditEvent) (db db' : Database)
    → Stored e db db'
    → of_aggregate e.aggregate_id db'.events
      ≡ of_aggregate e.aggregate_id db.events ++ row_of e ∷ []
unfolding of_aggregate
Stored-same e db db' st = ground (
  arith,
  of_aggregate-append e.aggregate_id db.events (row_of e ∷ []),
  ap (of_aggregate e.aggregate_id) st.rows,
)

Stored-other :
    (e : AuditEvent) (db db' : Database) (id : ℕ)
    → Stored e db db'
    → id ≢ e.aggregate_id
    → of_aggregate id db'.events ≡ of_aggregate id db.events
unfolding of_aggregate
Stored-other e db db' id st n = ground (
  arith,
  of_aggregate-append id db.events (row_of e ∷ []),
  append-nil (of_aggregate id db.events),
  ap (of_aggregate id) st.rows,
)

same_or_other : (id j : ℕ) → (id ≡ j) ⊎ (id ≢ j)
same_or_other id j = elim (Bool-cases (id == j)) [
  | inl h ↦ inl (ground arith)
  | inr h ↦ inr (ground arith)
]

Stored-ordered :
    (e : AuditEvent) (db db' : Database) (id : ℕ)
    → Stored e db db'
    → Inv db
    → Ascends 0 (of_aggregate id db'.events) (version_in id db')
Stored-ordered e db db' id st inv = elim (same_or_other id e.aggregate_id) [
  | inr n ↦ rw (Stored-other e db db' id st n, ap version_of (st.others id n)) (inv.ordered id)
  | inl q ↦
      rw (q, Stored-same e db db' st, st.current)
        (Ascends-append 0 (of_aggregate e.aggregate_id db.events) (version_in e.aggregate_id db)
          (row_of e) (omega (arith, st.next)) (inv.ordered e.aggregate_id))
]

Stored-gone :
    (e : AuditEvent) (db db' : Database) (id : ℕ)
    → Stored e db db'
    → Inv db
    → erased (get id db'.aggregates) ≡ true
    → of_aggregate id db'.events ≡ []
Stored-gone e db db' id st inv h = elim (same_or_other id e.aggregate_id) [
  | inr n ↦ rw (Stored-other e db db' id st n) (inv.gone id (ground (arith, st.others id n)))
  | inl q ↦ absurd (ground (arith, ap (λ (j : ℕ). erased (get j db'.aggregates)) q))
]

pub Stored-Inv : (e : AuditEvent) (db db' : Database) → Stored e db db' → Inv db → Inv db'
Stored-Inv e db db' st inv = record {
  ordered = λ id. Stored-ordered e db db' id st inv;
  gone = λ id h. Stored-gone e db db' id st inv h;
}

-- What a finished append says of itself.
finished :
    (req : AppendRequest) (earlier db db' : Database) (p : Pending) (e : AuditEvent)
    → append_begin req earlier ≡ ok p
    → append_finish p db ≡ (ok e, db')
    → Outcome p.event db (ok e, db')
finished req earlier db db' p e b f =
    rw (← f) (append_finish-Outcome p db (append_begin-Follows req earlier p b))

begun_for :
    (req : AppendRequest) (earlier : Database) (p : Pending)
    → append_begin req earlier ≡ ok p
    → p.event.aggregate_id ≡ req.aggregate_id
unfolding append_begin
begun_for req earlier p b = ground arith

read_same :
    (e : AuditEvent) (db db' : Database) (before : List AuditEvent)
    → Stored e db db'
    → Inv db
    → read e.aggregate_id none db ≡ ok before
    → read e.aggregate_id none db' ≡ ok (before ++ e ∷ [])
read_same e db db' before st inv h =
    let id = e.aggregate_id in
    let old : ok (map to_domain (of_aggregate id db.events)) ≡ ok before =
      sym (read_ascending id db inv) ∙ h in
    let rows : map to_domain (of_aggregate id db.events) ≡ before = ground arith in
    rw
      (
        read_ascending id db' (Stored-Inv e db db' st inv),
        Stored-same e db db' st,
        map-append,
        rows,
      )
      refl

read_other :
    (e : AuditEvent) (db db' : Database) (id : ℕ)
    → Stored e db db'
    → Inv db
    → id ≢ e.aggregate_id
    → read id none db' ≡ read id none db
read_other e db db' id st inv n =
    rw
      (
        read_ascending id db' (Stored-Inv e db db' st inv),
        read_ascending id db inv,
        Stored-other e db db' id st n,
      )
      refl

-- However old the state is that an append has read, an event that it stores has the version after
-- the aggregate's current one, which it becomes; the aggregate then reads as before with the event
-- at its end, and every other aggregate reads as before.
pub accepted_append :
    (req : AppendRequest) (earlier db db' : Database) (p : Pending) (e : AuditEvent)
    → Inv db
    → append_begin req earlier ≡ ok p
    → append_finish p db ≡ (ok e, db')
    → (e.aggregate_version ≡ current_version req.aggregate_id db + 1)
      × (current_version req.aggregate_id db' ≡ e.aggregate_version)
      × ((before : List AuditEvent)
          → read req.aggregate_id none db ≡ ok before
          → read req.aggregate_id none db' ≡ ok (before ++ e ∷ []))
      × ((id : ℕ) → id ≢ req.aggregate_id → read id none db' ≡ read id none db)
unfolding Outcome
accepted_append req earlier db db' p e inv b f =
    let o = finished req earlier db db' p e b f in
    let id : e.aggregate_id ≡ req.aggregate_id =
      ap (λ x. x.aggregate_id) o.0 ∙ begun_for req earlier p b in
    let st : Stored e db db' = rw (o.0) o.1 in
    rw (← id) (
      omega (arith, st.next, current_version-version_in e.aggregate_id db),
      omega (arith, st.current, current_version-version_in e.aggregate_id db'),
      λ before h. read_same e db db' before st inv h,
      λ j n. read_other e db db' j st inv n,
    )

-- The aggregate, if there is one, has the type of the request and is open.
abbrev pub Fits : String → Option AggregateRecord → Type 0
Fits type none = Unit
Fits type (some a) = (a.aggregate_type ≡ type) × (a.privacy_state ≡ active)

abbrev pub Expected : Option ℕ → ℕ → Type 0
Expected none v = Unit
Expected (some expected) v = expected ≡ v

uncontended :
    (req : AppendRequest) (db : Database)
    → Inv db
    → any (λ r. r.event_id == req.event_id) db.events ≡ false
    → duplicates (make_event req (version_in req.aggregate_id db)) db.events ≡ false
uncontended req db inv fresh =
    duplicates-Ascends (make_event req (version_in req.aggregate_id db)) 0
      (version_in req.aggregate_id db) db.events (inv.ordered req.aggregate_id) (omega arith) fresh

append_from :
    (req : AppendRequest) (db : Database) (a : Option AggregateRecord)
    → get req.aggregate_id db.aggregates ≡ a
    → duplicates (make_event req (version_of a)) db.events ≡ false
    → ((append req db).0 ≡ ok (make_event req (version_of a)))
      ↔ (Fits req.aggregate_type a × Expected req.expected_version (version_of a))
unfolding append append_begin append_finish check_aggregate insert_new update_seen commit
append_from req db none e d = ground arith
append_from req db (some a) e d =
    ground (arith, string_eq.beq_iff a.aggregate_type req.aggregate_type)

-- When no other session commits in between, an append whose event id is new is accepted exactly when
-- the aggregate is absent, or open and of the request's type, and its version is the one that the
-- request expects, if it expects one; no constraint of the tables refuses it then.
pub append_accepts_iff :
    (req : AppendRequest) (db : Database)
    → Inv db
    → any (λ r. r.event_id == req.event_id) db.events ≡ false
    → ((append req db).0 ≡ ok (make_event req (current_version req.aggregate_id db))) ↔ (
        Fits req.aggregate_type (get req.aggregate_id db.aggregates)
        × Expected req.expected_version (current_version req.aggregate_id db))
append_accepts_iff req db inv fresh =
    rw (current_version-version_in req.aggregate_id db)
      (append_from req db (get req.aggregate_id db.aggregates) refl (uncontended req db inv fresh))
