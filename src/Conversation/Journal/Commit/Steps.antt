-- ===== src/Conversation/Journal/Commit/Steps.antt =====
-- The steps of `commit_turn` of src/pitchbot/conversation/journal.py, and what is left by each.
use pitch_bot.Prelude.{
  String, ◌≡◌, ◌⊎◌, refl, sym, ap, ◌∙◌, Mem, arith, Bool, Option, none, some, List, ◌==◌, nat_eq,
  string_eq, Bool-cases, inl, inr,
}
use pitch_bot.Storage.Models.{Database}
use pitch_bot.Storage.Repository.{
  AuditEvent, AppendRequest, Pending, Result, ok, err, concurrency_conflict, AggregateStatus,
  append_begin, append_finish,
}
use pitch_bot.Storage.Repository.Laws.{Outcome, Stored, append_begin-Follows, append_finish-Outcome}
use pitch_bot.Conversation.State.{ConversationState, ConversationResult}
use pitch_bot.Conversation.Checkpoint.{ConversationStateCheckpoint, export_checkpoint}
use pitch_bot.Conversation.Engine.{Session}
use pitch_bot.Conversation.Engine.Process.{
  TurnOutcome, capacity_reached, conversation_closed, answered,
}
use pitch_bot.Conversation.Journal.{
  ConversationTurnEvent, JournaledConversationTurn, JournalError, Journal, failed, done,
  proposed_event, event_for, event_of_digest, event_with, event_ok, last_digest, event_from_state,
}
use pitch_bot.Conversation.Journal.Load.{turn_accepted_event_type}
use pitch_bot.Conversation.Journal.Commit.{
  ConversationJournal, Operation, ConversationTurnPreparation, Reads, and_then, load, replay_loaded,
  replaced, append_request, Committed, synchronized, reconcile_found, reconcile, appended, Moment,
  commit_event, commit_turn, turn_committed,
}
use pitch_bot.Conversation.Journal.Commit.Found.{OfOperation, FoundIn, find_operation_lem}

-- What holds of every error, and of what a function makes of each value there can be.
pub and_then-case {ℓ κ μ} :
    {A : Type ℓ} {B : Type κ} (P : Journal B → Type μ) (f : A → Journal B) (r : Journal A)
    → ((e : JournalError) → P (failed e))
    → ((x : A) → r ≡ done x → P (f x))
    → P (and_then r f)
and_then-case P f (failed e) refuses goes = refuses e
and_then-case P f (done x) refuses goes = goes x refl

-- the event, if there is one, is the operation's
abbrev EventFor : Operation → Option ConversationTurnEvent → Type 0
EventFor op none = Unit
EventFor op (some e) =
    (e.session_id ≡ op.session_id)
    × (e.operation_id ≡ op.operation_id)
    × (e.operation_fingerprint ≡ op.fingerprint)

event_of_digest-EventFor :
    (is_digest : String → Bool) (op : Operation) (c : ConversationStateCheckpoint)
    (r : ConversationResult) (d : Option String)
    → EventFor op (event_of_digest is_digest op.session_id op.operation_id op.fingerprint c r d)
event_of_digest-EventFor is_digest op c r none = tt
event_of_digest-EventFor is_digest op c r (some d) =
    let e = event_with op.session_id op.operation_id op.fingerprint c r d in
    elim (Bool-cases (event_ok is_digest e)) [
      | inl valid ↦ rw valid (refl, refl, refl)
      | inr broken ↦ rw broken tt
    ]

event_for-EventFor :
    (is_digest : String → Bool) (op : Operation) (r : ConversationResult)
    (c : Option ConversationStateCheckpoint)
    → EventFor op (event_for is_digest op.session_id op.operation_id op.fingerprint r c)
unfolding event_from_state
event_for-EventFor is_digest op r none = tt
event_for-EventFor is_digest op r (some c) =
    event_of_digest-EventFor is_digest op c r (last_digest c.recent_turn_digests)

proposed_event-EventFor :
    (is_digest : String → Bool) (op : Operation) (r : ConversationResult) (s : ConversationState)
    → EventFor op (proposed_event is_digest op.session_id op.operation_id op.fingerprint r s)
unfolding proposed_event
proposed_event-EventFor is_digest op r s =
    event_for-EventFor is_digest op r (export_checkpoint is_digest s)

-- the event is the one that the request is for
abbrev Requested : AppendRequest → AuditEvent → Type 0
Requested req a =
    (a.aggregate_id ≡ req.aggregate_id)
    × (a.event_type ≡ req.event_type)
    × (a.payload ≡ req.payload)
    × (a.occurred_at ≡ req.occurred_at)

-- an append that is accepted stores the request's event
abbrev Appended : AppendRequest → Database → Result AuditEvent × Database → Type 0
Appended req db (err e, db') = db' ≡ db
Appended req db (ok a, db') = Stored a db db' × Requested req a

begun :
    (req : AppendRequest) (db : Database) (p : Pending)
    → append_begin req db ≡ ok p
    → Requested req p.event
unfolding append_begin
begun req db p h = (ground arith, ground arith, ground arith, ground arith)

outcome-Appended :
    (req : AppendRequest) (e : AuditEvent) (db : Database) (o : Result AuditEvent × Database)
    → Requested req e
    → Outcome e db o
    → Appended req db o
unfolding Outcome
outcome-Appended req e db (err x, db') h o = o
outcome-Appended req e db (ok x, db') h o = rw (o.0) (o.1, h)

append_at-Appended :
    (req : AppendRequest) (earlier db : Database) (b : Result Pending)
    → append_begin req earlier ≡ b
    → Appended req db (elim b [ err e ↦ (err e, db) | ok p ↦ append_finish p db ])
append_at-Appended req earlier db (err e) h = refl
append_at-Appended req earlier db (ok p) h =
    outcome-Appended req p.event db (append_finish p db) (begun req earlier p h)
      (append_finish-Outcome p db (append_begin-Follows req earlier p h))

-- a preparation is of the session's state
pub record Of (before : ConversationState) (prep : ConversationTurnPreparation) : Type 0 where
  pub rollback : prep.rollback_state ≡ before
  pub lead : prep.lead_id ≡ before.lead_id

-- A turn is about an operation, the state before it, the reads of its preparation, the moment of its
-- commit, and what the engine makes of it.
module _ (j : ConversationJournal) (op : Operation) (before : ConversationState) (reads : Reads)
    (at : Moment) (outcome : TurnOutcome) where
  -- the lead's journal, as the preparation or the commit has loaded it
  abbrev Loads : List JournaledConversationTurn → Option AggregateStatus → Type 0
  Loads turns st =
      (load j before.lead_id reads ≡ done (turns, st))
      ⊎ (load j before.lead_id at.reads ≡ done (turns, st))

  -- what a replay of the loaded turns gives
  abbrev Replays :
      List JournaledConversationTurn → Option AggregateStatus → ConversationState → Type 0
  Replays turns st s =
      and_then (replay_loaded j before.lead_id op.session_id turns st) (replaced j) ≡ done s

  abbrev pub Replayed : ConversationState → Type 0
  Replayed s =
      (turns : List JournaledConversationTurn) × (st : Option AggregateStatus) × Loads turns st
      × Replays turns st s

  -- the turn is among the loaded ones, of which a replay gives the state
  abbrev pub Persisted : JournaledConversationTurn → ConversationState → Type 0
  Persisted t s =
      (turns : List JournaledConversationTurn) × (st : Option AggregateStatus) × Loads turns st
      × Mem t turns
      × Replays turns st s

  -- the event is that of the engine's answer, which leaves the state
  abbrev pub Answers : ConversationTurnEvent → ConversationState → Type 0
  Answers e s =
      (r : ConversationResult) × (after : Session) × (outcome ≡ answered r after)
      × (proposed_event j.is_digest op.session_id op.operation_id op.fingerprint r after.state
          ≡ some e)
      × (s ≡ after.state)

  -- the turn is stored as one event of the lead
  abbrev pub Written : JournaledConversationTurn → Database → Type 0
  Written t db' =
      (a : AuditEvent) × Stored a at.current db'
      × (a.aggregate_id ≡ before.lead_id)
      × (a.event_type ≡ turn_accepted_event_type)
      × (a.payload ≡ j.encode t.event)
      × (a.occurred_at ≡ t.occurred_at)
      × (t.occurred_at ≡ at.now)
      × (a.aggregate_version ≡ t.aggregate_version)

  -- What a turn through the journal comes to.
  abbrev pub Settles : Committed × Database → Type 0
  Settles ((failed e, s), db') = (db' ≡ at.current) × ((s ≡ before) ⊎ Replayed s)
  Settles ((done t, s), db') =
      OfOperation op t
      × (((db' ≡ at.current) × Persisted t s) ⊎ (Answers t.event s × Written t db'))

  synchronized-Replayed :
      (turns : List JournaledConversationTurn) (st : Option AggregateStatus)
      (r : Journal ConversationState)
      → Loads turns st
      → and_then (replay_loaded j before.lead_id op.session_id turns st) (replaced j) ≡ r
      → (synchronized before r ≡ before) ⊎ Replayed (synchronized before r)
  synchronized-Replayed turns st (failed e) loads h = inl refl
  synchronized-Replayed turns st (done s) loads h = inr (turns, st, loads, h)

  persisted-Settles :
      (t : JournaledConversationTurn) (turns : List JournaledConversationTurn)
      (st : Option AggregateStatus) (r : Journal ConversationState)
      → OfOperation op t
      → Mem t turns
      → Loads turns st
      → and_then (replay_loaded j before.lead_id op.session_id turns st) (replaced j) ≡ r
      → Settles ((and_then r (λ s. done t), synchronized before r), at.current)
  persisted-Settles t turns st (failed e) of among loads h = (refl, inl refl)
  persisted-Settles t turns st (done s) of among loads h =
      (of, inl (refl, (turns, st, loads, among, h)))

  reconcile_found-Settles :
      (prep : ConversationTurnPreparation) (turns : List JournaledConversationTurn)
      (st : Option AggregateStatus) (r : Journal (Option JournaledConversationTurn))
      → Of before prep
      → FoundIn op turns r
      → Loads turns st
      → Settles (reconcile_found j op prep turns st r, at.current)
  reconcile_found-Settles prep turns st (failed e) of found loads = (refl, inl of.rollback)
  reconcile_found-Settles prep turns st (done none) of found loads =
      rw (of.rollback, of.lead) (refl, synchronized-Replayed turns st _ loads refl)
  reconcile_found-Settles prep turns st (done (some t)) of found loads =
      rw (of.rollback, of.lead) (persisted-Settles t turns st _ found.0 found.1 loads refl)

  reconcile-Settles :
      (prep : ConversationTurnPreparation)
      (found : Journal (List JournaledConversationTurn × Option AggregateStatus))
      → Of before prep
      → load j before.lead_id at.reads ≡ found
      → Settles (reconcile j op prep found, at.current)
  reconcile-Settles prep (failed e) of h = (refl, inl of.rollback)
  reconcile-Settles prep (done (turns, st)) of h =
      reconcile_found-Settles prep turns st _ of (find_operation_lem op turns) (inr h)

  appended-Settles :
      (prep : ConversationTurnPreparation) (e : ConversationTurnEvent) (after : ConversationState)
      (o : Result AuditEvent × Database)
      → Of before prep
      → EventFor op (some e)
      → Answers e after
      → Appended (append_request j prep at.event_id at.now e) at.current o
      → Settles (appended j op prep at.reads e after o)
  appended-Settles prep e after (ok a, db') of mine answer stored =
      let q = stored.1 in
      (mine, inr (answer, (a, stored.0, q.0 ∙ of.lead, q.1, q.2, refl, q.3, refl)))
  appended-Settles prep e after (err concurrency_conflict, db') of mine answer stored = rw stored (
      reconcile-Settles prep (load j prep.lead_id at.reads) of
        (ap (λ lead. load j lead at.reads) (sym of.lead)))
  appended-Settles prep e after (err refused, db') of mine answer stored = (stored, inl of.rollback)

  commit_event-Settles :
      (prep : ConversationTurnPreparation) (e : Option ConversationTurnEvent)
      (r : ConversationResult) (after : Session)
      → Of before prep
      → EventFor op e
      → outcome ≡ answered r after
      → proposed_event j.is_digest op.session_id op.operation_id op.fingerprint r after.state ≡ e
      → Settles (commit_event j op prep at e after.state)
  commit_event-Settles prep none r after of mine answer proposed = (refl, inl of.rollback)
  commit_event-Settles prep (some e) r after of mine answer proposed =
      appended-Settles prep e after.state _ of mine (r, after, answer, proposed, refl)
        (append_at-Appended (append_request j prep at.event_id at.now e) at.earlier at.current _
          refl)

  commit_turn-Settles :
      (prep : ConversationTurnPreparation) (r : ConversationResult) (after : Session)
      → Of before prep
      → outcome ≡ answered r after
      → Settles (commit_turn j op prep at r after.state)
  unfolding commit_turn
  commit_turn-Settles prep r after of answer =
      elim (Bool-cases (after.state.lead_id == prep.lead_id)) [
        | inl same ↦ rw same (
            commit_event-Settles prep _ r after of
              (proposed_event-EventFor j.is_digest op r after.state) answer refl)
        | inr other ↦ rw other (refl, inl of.rollback)
      ]

  pub turn_committed-Settles :
      (prep : ConversationTurnPreparation) (o : TurnOutcome)
      → Of before prep
      → outcome ≡ o
      → Settles (turn_committed j op prep at o)
  turn_committed-Settles prep capacity_reached of h = (refl, inl of.rollback)
  turn_committed-Settles prep conversation_closed of h = (refl, inl of.rollback)
  turn_committed-Settles prep (answered r after) of h = commit_turn-Settles prep r after of h
