-- ===== src/Conversation/Journal/Commit/Settled.antt =====
-- What a turn through the journal comes to: `ConversationJournal.process_turn` of
-- src/pitchbot/conversation/journal.py.
use pitch_bot.Prelude.{
  ℕ, ◌≡◌, refl, ap, ◌∙◌, arith, Bool, true, Option, none, some, List, Mem, nat_eq, string_eq,
  member,
}
use pitch_bot.Storage.Models.{Database}
use pitch_bot.Storage.Repository.{AggregateStatus}
use pitch_bot.Conversation.State.{ConversationState}
use pitch_bot.Conversation.Checkpoint.{ConversationStateCheckpoint, export_checkpoint}
use pitch_bot.Conversation.Engine.{TextRules, Turn, Session}
use pitch_bot.Conversation.Journal.{JournaledConversationTurn, JournalError, Journal, failed, done}
use pitch_bot.Conversation.Journal.Load.{find_operation, operation_ids}
use pitch_bot.Conversation.Journal.Commit.{
  ConversationJournal, Operation, ConversationTurnPreparation, Reads, and_then, load, replay_loaded,
  replaced, admitted, prepare_found, exported_or_error, prepare_turn, Committed, Moment, turn_from,
  process_journaled_turn,
}
use pitch_bot.Conversation.Journal.Commit.Found.{OfOperation, found_for, not_new}
use pitch_bot.Conversation.Journal.Commit.Steps.{and_then-case}

-- What holds of a turn for every preparation there can be: errors, new operations and persisted ones.
from_preparation :
    (j : ConversationJournal) (op : Operation) (reads : Reads) (s : ConversationState)
    (P : Journal (ConversationTurnPreparation × ConversationState) → Type 0)
    → ((e : JournalError) → P (failed e))
    → ((turns : List JournaledConversationTurn) (st : Option AggregateStatus) (v : ℕ)
        → load j s.lead_id reads ≡ done (turns, st)
        → find_operation op.session_id op.operation_id op.fingerprint turns ≡ done none
        → P (
            done (
              record {
                lead_id = s.lead_id;
                aggregate_version = v;
                rollback_state = s;
                existing = none;
              },
              s,
            )))
    → ((turns : List JournaledConversationTurn) (st : Option AggregateStatus)
          (t : JournaledConversationTurn) (durable : ConversationState)
        → load j s.lead_id reads ≡ done (turns, st)
        → find_operation op.session_id op.operation_id op.fingerprint turns ≡ done (some t)
        → and_then (replay_loaded j s.lead_id op.session_id turns st) (replaced j) ≡ done durable
        → P (
            done (
              record {
                lead_id = s.lead_id;
                aggregate_version = t.aggregate_version;
                rollback_state = s;
                existing = some t;
              },
              durable,
            )))
    → P (prepare_turn j op reads s)
unfolding prepare_turn
from_preparation j op reads s P refuses new old =
    and_then-case P _ (exported_or_error (export_checkpoint j.is_digest s)) refuses (λ c exported.
      and_then-case P _ (load j s.lead_id reads) refuses (λ found loaded.
        and_then-case P _ (find_operation op.session_id op.operation_id op.fingerprint found.0)
          refuses (λ existing seen. by_existing c found.0 found.1 existing loaded seen)))
  where
    by_existing :
        (c : ConversationStateCheckpoint) (turns : List JournaledConversationTurn)
        (st : Option AggregateStatus) (existing : Option JournaledConversationTurn)
        → load j s.lead_id reads ≡ done (turns, st)
        → find_operation op.session_id op.operation_id op.fingerprint turns ≡ done existing
        → P (prepare_found j op s c turns st existing)
    by_existing c turns st none loaded seen = and_then-case P _ _ refuses (λ version step.
        and_then-case P _ (admitted j op version) refuses (λ v room. new turns st v loaded seen))
    by_existing c turns st (some t) loaded seen =
        and_then-case P _ (replay_loaded j s.lead_id op.session_id turns st) refuses
          (λ replay replayed. and_then-case P _ (replaced j replay) refuses (λ durable restored.
            old turns st t durable loaded seen
              (ap (λ x. and_then x (replaced j)) replayed ∙ restored)))

-- What a turn comes to whose operation is among the turns that were loaded.
abbrev pub Repeats :
    ConversationJournal
    → Operation
    → List JournaledConversationTurn
    → Option AggregateStatus
    → ConversationState
    → Database
    → Committed × Database
    → Type 0
Repeats j op turns st before db ((failed e, s), db') = (db' ≡ db) × (s ≡ before)
Repeats j op turns st before db ((done t, s), db') =
    (db' ≡ db)
    × OfOperation op t
    × Mem t turns
    × (and_then (replay_loaded j before.lead_id op.session_id turns st) (replaced j) ≡ done s)

same_load :
    (a b : List JournaledConversationTurn) (x y : Option AggregateStatus)
    (r : Journal (List JournaledConversationTurn × Option AggregateStatus))
    → r ≡ done (a, x)
    → r ≡ done (b, y)
    → (a ≡ b) × (x ≡ y)
same_load a b x y r h k = ground (arith, h, k)

-- When the load of the lead's journal has the operation's identifier among its turns, the turn is
-- not committed again: the databases' state does not change, and either there is an error, and the
-- session stays as it was, or the turn that was loaded for this session, identifier and fingerprint
-- is returned, and the session is at what the replay of the loaded turns gives.
pub retry_commits_nothing :
    (j : ConversationJournal) (op : Operation) (reads : Reads) (at : Moment) (rules : TextRules)
    (detects : Bool) (turn : Turn) (session : Session) (turns : List JournaledConversationTurn)
    (st : Option AggregateStatus)
    → load j session.state.lead_id reads ≡ done (turns, st)
    → member op.operation_id (operation_ids turns) ≡ true
    → Repeats j op turns st session.state at.current
        (process_journaled_turn j op reads at rules detects turn session)
unfolding process_journaled_turn
retry_commits_nothing j op reads at rules detects turn session turns st loads known =
    from_preparation j op reads session.state
      (λ p.
        Repeats j op turns st session.state at.current
          (turn_from j op at rules detects turn session p))
      (λ e. (refl, refl))
      (λ turns' st' v loaded seen.
        let same = same_load turns turns' st st' _ loads loaded in
        absurd (not_new op turns turns' same.0 known seen))
      (λ turns' st' t durable loaded seen replayed.
        let same = same_load turns turns' st st' _ loads loaded in
        let found = found_for op turns' t seen in
        rw (same.0, same.1) (refl, found.0, found.1, replayed))
