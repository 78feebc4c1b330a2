-- ===== src/Conversation/Journal/Commit.antt =====
-- A turn through the journal: `prepare_turn`, `commit_turn` and `process_turn` of
-- src/pitchbot/conversation/journal.py, on one session of the engine. The arguments are what the class
-- is made with, and pydantic's: `encode` and `decode` of an event, `==` of checkpoints. Each load has
-- the databases that its reads see, and an append those at its two ends.
pub mod Found
pub mod Steps
pub mod Settled
use pitch_bot.Prelude.{
  String, ℕ, ◌+◌, Bool, true, false, not, ◌&&◌, Option, none, some, List, [], ◌∷◌, map, leb, ◌==◌,
  string_eq, if◌then◌else◌,
}
use pitch_bot.Domain.Json.{JsonFields}
use pitch_bot.Storage.Models.{Database}
use pitch_bot.Storage.Repository.{
  AuditEvent, AppendRequest, Result, ok, err, StorageError, concurrency_conflict, AggregateStatus,
  append_begin, append_finish,
}
use pitch_bot.Conversation.State.{ConversationState, ConversationResult}
use pitch_bot.Conversation.Checkpoint.{
  ConversationStateCheckpoint, export_checkpoint, state_from_checkpoint,
}
use pitch_bot.Conversation.Engine.{TextRules, Turn, Session}
use pitch_bot.Conversation.Engine.Process.{
  TurnOutcome, capacity_reached, conversation_closed, answered, process_turn,
}
use pitch_bot.Conversation.Journal.{
  ConversationTurnEvent, JournaledConversationTurn, ConversationReplay, JournalError, not_found,
  conflict, history_unavailable, value_error, storage_error, operation_conflict, corrupted, Journal,
  failed, done, proposed_event, replay_session_events,
}
use pitch_bot.Conversation.Journal.Load.{
  conversation_aggregate_type, turn_accepted_event_type, load_events, find_operation,
}

pub record ConversationJournal : Type 0 where
  pub is_digest : String → Bool
  pub max_events : ℕ
  pub digest_key_id : String
  pub decode : JsonFields → Journal ConversationTurnEvent
  pub encode : ConversationTurnEvent → JsonFields
  pub is_ours : String → Bool
  pub same_checkpoint : ConversationStateCheckpoint → ConversationStateCheckpoint → Bool

pub record Operation : Type 0 where
  pub session_id : ℕ
  pub operation_id : ℕ
  pub fingerprint : String
  pub expected_version : Option ℕ

pub record ConversationTurnPreparation : Type 0 where
  pub lead_id : ℕ
  pub aggregate_version : ℕ
  pub rollback_state : ConversationState
  pub existing : Option JournaledConversationTurn

abbrev pub Reads : Type 0
Reads = List (Database × Database × Database)

-- the error, or what a function makes of the value
abbrev pub and_then {ℓ κ} : {A : Type ℓ} → {B : Type κ} → Journal A → (A → Journal B) → Journal B
and_then (failed e) f = failed e
and_then (done x) f = f x

-- self._load_events(lead_id)
abbrev pub load :
    ConversationJournal
    → ℕ
    → Reads
    → Journal (List JournaledConversationTurn × Option AggregateStatus)
load j lead reads = load_events j.max_events j.decode j.is_ours lead reads

abbrev pub version_in : Option AggregateStatus → ℕ
version_in none = 0
version_in (some st) = st.current_version

-- the events of the session, in their order
unfoldable pub of_session : ℕ → List JournaledConversationTurn → List ConversationTurnEvent
of_session session_id [] = []
of_session session_id (t ∷ turns) =
    let rest = of_session session_id turns in
    if t.event.session_id == session_id then t.event ∷ rest else rest

-- `_replay_loaded`
unfoldable pub replay_loaded :
    ConversationJournal
    → ℕ
    → ℕ
    → List JournaledConversationTurn
    → Option AggregateStatus
    → Journal ConversationReplay
replay_loaded j lead session_id turns none = failed not_found
replay_loaded j lead session_id turns (some st) =
    replay_session_events j.is_digest lead session_id st.current_version
      (of_session session_id turns)

abbrev pub state_or_error : Option ConversationState → Journal ConversationState
state_or_error none = failed value_error
state_or_error (some s) = done s

-- the state after engine.replace_checkpoint(session_id, replay.checkpoint)
abbrev pub replaced : ConversationJournal → ConversationReplay → Journal ConversationState
replaced j replay = state_or_error (state_from_checkpoint j.digest_key_id replay.checkpoint)

-- the live state is the durable one
abbrev pub in_step :
    ConversationJournal
    → ConversationStateCheckpoint
    → ℕ
    → List ConversationTurnEvent
    → Journal ConversationReplay
    → Journal ℕ
in_step j c version [] replay = if c.turn_count == 0 then done version else failed conflict
in_step j c version (e ∷ events) replay =
    and_then replay
      (λ durable. if j.same_checkpoint c durable.checkpoint then done version else failed conflict)

abbrev pub expected_ok : Option ℕ → ℕ → Bool
expected_ok none version = true
expected_ok (some expected) version = expected == version

abbrev pub admitted : ConversationJournal → Operation → ℕ → Journal ℕ
admitted j op version =
    if leb j.max_events version
    then failed history_unavailable
    else if expected_ok op.expected_version version
    then done version
    else failed conflict

-- the end of `prepare_turn`, when the operation was not persisted
abbrev pub prepare_new :
    ConversationJournal
    → Operation
    → ConversationState
    → ConversationStateCheckpoint
    → List JournaledConversationTurn
    → Option AggregateStatus
    → Journal (ConversationTurnPreparation × ConversationState)
prepare_new j op s c turns st =
    and_then
      (in_step j c (version_in st) (of_session op.session_id turns)
        (replay_loaded j s.lead_id op.session_id turns st))
      (λ version. and_then (admitted j op version) (λ v. done (
        record { lead_id = s.lead_id; aggregate_version = v; rollback_state = s; existing = none },
        s,
      )))

-- the same when it was: the session is set to the durable state
abbrev pub prepare_found :
    ConversationJournal
    → Operation
    → ConversationState
    → ConversationStateCheckpoint
    → List JournaledConversationTurn
    → Option AggregateStatus
    → Option JournaledConversationTurn
    → Journal (ConversationTurnPreparation × ConversationState)
prepare_found j op s c turns st none = prepare_new j op s c turns st
prepare_found j op s c turns st (some existing) =
    and_then (replay_loaded j s.lead_id op.session_id turns st) (λ replay.
      and_then (replaced j replay) (λ durable. done (
        record {
          lead_id = s.lead_id;
          aggregate_version = existing.aggregate_version;
          rollback_state = s;
          existing = some existing;
        },
        durable,
      )))

abbrev pub exported_or_error :
    Option ConversationStateCheckpoint → Journal ConversationStateCheckpoint
exported_or_error none = failed value_error
exported_or_error (some c) = done c

-- `prepare_turn`: the preparation and the session's state, which an error leaves as it is
unfoldable pub prepare_turn :
    ConversationJournal
    → Operation
    → Reads
    → ConversationState
    → Journal (ConversationTurnPreparation × ConversationState)
prepare_turn j op reads s = and_then (exported_or_error (export_checkpoint j.is_digest s)) (λ c.
    and_then (load j s.lead_id reads) (λ found.
      and_then (find_operation op.session_id op.operation_id op.fingerprint (found.0))
        (λ existing. prepare_found j op s c (found.0) found.1 existing)))

-- what `commit_turn` appends
abbrev pub append_request :
    ConversationJournal
    → ConversationTurnPreparation
    → ℕ
    → ℕ
    → ConversationTurnEvent
    → AppendRequest
append_request j prep event_id now e = record {
  event_id = event_id;
  aggregate_id = prep.lead_id;
  aggregate_type = conversation_aggregate_type;
  event_type = turn_accepted_event_type;
  payload = j.encode e;
  expected_version = some prep.aggregate_version;
  occurred_at = now;
}

-- append, cut between its read and its commit
abbrev pub append_at : AppendRequest → Database → Database → Result AuditEvent × Database
append_at req earlier db = elim (append_begin req earlier) [
  | err e ↦ (err e, db)
  | ok p ↦ append_finish p db
]

-- what is left of a turn: the turn that is persisted or an error, and the session's state
abbrev pub Committed : Type 0
Committed = Journal JournaledConversationTurn × ConversationState

-- the handling of a conflict: another writer may have persisted the operation
abbrev pub synchronized : ConversationState → Journal ConversationState → ConversationState
synchronized rollback (failed e) = rollback
synchronized rollback (done s) = s

-- the error after `_synchronize_after_conflict`, which passes over an empty history
abbrev pub conflict_error : Journal ConversationState → JournalError
conflict_error (failed not_found) = conflict
conflict_error (failed e) = e
conflict_error (done s) = conflict

abbrev pub reconcile_found :
    ConversationJournal
    → Operation
    → ConversationTurnPreparation
    → List JournaledConversationTurn
    → Option AggregateStatus
    → Journal (Option JournaledConversationTurn)
    → Committed
reconcile_found j op prep turns st (failed e) = (failed e, prep.rollback_state)
reconcile_found j op prep turns st (done none) =
    let state = and_then (replay_loaded j prep.lead_id op.session_id turns st) (replaced j) in
    (failed (conflict_error state), synchronized prep.rollback_state state)
reconcile_found j op prep turns st (done (some persisted)) =
    let state = and_then (replay_loaded j prep.lead_id op.session_id turns st) (replaced j) in
    (and_then state (λ s. done persisted), synchronized prep.rollback_state state)

abbrev pub reconcile :
    ConversationJournal
    → Operation
    → ConversationTurnPreparation
    → Journal (List JournaledConversationTurn × Option AggregateStatus)
    → Committed
reconcile j op prep (failed e) = (failed e, prep.rollback_state)
reconcile j op prep (done (turns, st)) =
    reconcile_found j op prep turns st
      (find_operation op.session_id op.operation_id op.fingerprint turns)

-- the result of the append; an error of the aggregate is raised as it is
abbrev pub appended :
    ConversationJournal
    → Operation
    → ConversationTurnPreparation
    → Reads
    → ConversationTurnEvent
    → ConversationState
    → Result AuditEvent × Database
    → Committed × Database
appended j op prep reads e after (ok a, db) = (
  (
    done (record {
      aggregate_version = a.aggregate_version;
      occurred_at = a.occurred_at;
      event = e;
    }),
    after,
  ),
  db,
)
appended j op prep reads e after (err concurrency_conflict, db) =
    (reconcile j op prep (load j prep.lead_id reads), db)
appended j op prep reads e after (err refused, db) =
    ((failed storage_error, prep.rollback_state), db)

-- what a commit is about: the moments, the identifiers and the databases
pub record Moment : Type 0 where
  pub now : ℕ
  pub event_id : ℕ
  pub earlier : Database
  pub current : Database
  pub reads : Reads

abbrev pub commit_event :
    ConversationJournal
    → Operation
    → ConversationTurnPreparation
    → Moment
    → Option ConversationTurnEvent
    → ConversationState
    → Committed × Database
commit_event j op prep at none after = ((failed value_error, prep.rollback_state), at.current)
commit_event j op prep at (some e) after =
    appended j op prep at.reads e after
      (append_at (append_request j prep at.event_id at.now e) at.earlier at.current)

-- `commit_turn`, of a preparation that has no persisted turn
unfoldable pub commit_turn :
    ConversationJournal
    → Operation
    → ConversationTurnPreparation
    → Moment
    → ConversationResult
    → ConversationState
    → Committed × Database
commit_turn j op prep at r after =
    if after.lead_id == prep.lead_id
    then commit_event j op prep at
        (proposed_event j.is_digest op.session_id op.operation_id op.fingerprint r after) after
    else ((failed value_error, prep.rollback_state), at.current)

-- the engine's turn and the commit; a refusal of the engine restores the state
abbrev pub turn_committed :
    ConversationJournal
    → Operation
    → ConversationTurnPreparation
    → Moment
    → TurnOutcome
    → Committed × Database
turn_committed j op prep at (answered r after) = commit_turn j op prep at r after.state
turn_committed j op prep at refused = ((failed value_error, prep.rollback_state), at.current)

abbrev pub turn_prepared :
    ConversationJournal
    → Operation
    → Moment
    → TextRules
    → Bool
    → Turn
    → Session
    → ConversationTurnPreparation
    → ConversationState
    → Option JournaledConversationTurn
    → Committed × Database
turn_prepared j op at rules detects turn session prep s none =
    turn_committed j op prep at (process_turn rules detects turn (record session { state = s }))
turn_prepared j op at rules detects turn session prep s (some existing) =
    ((done existing, s), at.current)

abbrev pub turn_from :
    ConversationJournal
    → Operation
    → Moment
    → TextRules
    → Bool
    → Turn
    → Session
    → Journal (ConversationTurnPreparation × ConversationState)
    → Committed × Database
turn_from j op at rules detects turn session (failed e) = ((failed e, session.state), at.current)
turn_from j op at rules detects turn session (done (prep, s)) =
    turn_prepared j op at rules detects turn session prep s prep.existing

-- `ConversationJournal.process_turn`, after the reads of its preparation
unfoldable pub process_journaled_turn :
    ConversationJournal
    → Operation
    → Reads
    → Moment
    → TextRules
    → Bool
    → Turn
    → Session
    → Committed × Database
process_journaled_turn j op reads at rules detects turn session =
    turn_from j op at rules detects turn session (prepare_turn j op reads session.state)
