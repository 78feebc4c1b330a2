-- ===== src/Conversation/Journal/Tests.antt =====
-- A short conversation, its journal and a turn that is tried again.
use pitch_bot.Prelude.{
  ℕ, ◌≡◌, refl, true, false, none, some, List, [], ◌∷◌, map, member, get, from_keys, without,
  string_eq, nat_eq,
}
use pitch_bot.Domain.Json.{end}
use pitch_bot.Storage.Models.{Database, active}
use pitch_bot.Actions.Policy.{cold}
use pitch_bot.Storage.Repository.{
  AggregateStatus, status, read, of_aggregate, by_version, insert_by_version,
}
use pitch_bot.Conversation.Language.{english}
use pitch_bot.Conversation.State.{new_conversation, composed, continue, discovery}
use pitch_bot.Conversation.Checkpoint.{checkpoint_of}
use pitch_bot.Conversation.Engine.{Turn, Session}
use pitch_bot.Conversation.Engine.Process.{run_turns}
use pitch_bot.Conversation.Engine.Tests.{shop_rules, shop_rules-RulesOk, says, start}
use pitch_bot.Conversation.Journal.{
  ConversationTurnEvent, JournaledConversationTurn, done, event_with, replay_session_events,
}
use pitch_bot.Conversation.Journal.Load.{
  load_events, load_attempt, settled, examine, contiguous, parse_events, parse_event,
}
use pitch_bot.Conversation.Journal.Folded.{journal_turns}
use pitch_bot.Conversation.Journal.Replays.{ReplaysTo, replay_restores}
use pitch_bot.Conversation.Journal.Commit.{
  ConversationJournal, Operation, Moment, load, process_journaled_turn,
}
use pitch_bot.Conversation.Journal.Commit.Settled.{Repeats, retry_commits_nothing}

abbrev asked : List (ℕ × Turn)
asked = (11, says 1 "apparel") ∷ (12, says 2 "stop") ∷ (13, says 3 "apparel") ∷ []

abbrev written : List ConversationTurnEvent × Session
written = journal_turns (λ t. true) shop_rules true (λ t. "f") 5 asked start

replay_restores_example :
    (written.1 ≡ run_turns shop_rules true (map (λ t. t.1) asked) start)
    × ReplaysTo written.0 (replay_session_events (λ t. true) 7 5 2 written.0) written.1.state
unfolding new_conversation
replay_restores_example =
    replay_restores (λ t. true) shop_rules true (λ t. "f") 5 2 asked 7 50 9 9 9 3 "key"
      shop_rules-RulesOk (λ t. refl) (refl, refl, refl, refl, refl, refl)

-- a stored turn of lead 7
abbrev stored_event : ConversationTurnEvent
stored_event =
    event_with 5 11 "f" (checkpoint_of start.state)
      (record {
        reply = composed english [];
        language = english;
        language_switched = false;
        disposition = continue;
        result_phase = discovery;
        safety_signals = [];
        facts = [];
        revisions = [];
        new_evidence = [];
        classification = record {
          lead_id = 7;
          temperature = cold;
          score = 0;
          confidence = 0;
          evidence_ids = [];
          counter_evidence_ids = [];
          rule_version = "2";
        };
        repeated_turn = false;
        result_turn_count = 1;
      })
      "apparel"

abbrev book : ConversationJournal
book = record {
  is_digest = λ t. true;
  max_events = 100;
  digest_key_id = "key";
  decode = λ payload. done stored_event;
  encode = λ e. end;
  is_ours = λ t. false;
  same_checkpoint = λ a b. true;
}

abbrev tried : Operation
tried = record { session_id = 5; operation_id = 11; fingerprint = "f"; expected_version = none }

abbrev kept : Database
kept = record {
  aggregates =
      (
        7,
        record {
          aggregate_type = "lead";
          current_version = 1;
          privacy_state = active;
          created_at = 100;
          updated_at = 100;
        },
      )
      ∷ [];
  events =
      record {
        event_id = 900;
        aggregate_id = 7;
        aggregate_type = "lead";
        aggregate_version = 1;
        event_type = "conversation.turn-accepted.v1";
        payload = end;
        occurred_at = 100;
        anonymized_at = none;
      }
      ∷ [];
  suppressions = [];
  operations = [];
}

abbrev moment : Database → Moment
moment db = record {
  now = 200;
  event_id = 901;
  earlier = db;
  current = db;
  reads = (db, db, db) ∷ [];
}

abbrev loaded_turns : List JournaledConversationTurn
loaded_turns = record { aggregate_version = 1; occurred_at = 100; event = stored_event } ∷ []

abbrev loaded_status : AggregateStatus
loaded_status = record { aggregate_type = "lead"; current_version = 1; privacy_state = active }

the_load : load book 7 ((kept, kept, kept) ∷ []) ≡ done (loaded_turns, some loaded_status)
unfolding load_events load_attempt status get read of_aggregate by_version insert_by_version settled
    examine contiguous parse_events parse_event checkpoint_of from_keys new_conversation without
the_load = refl

retry_commits_nothing_example :
    Repeats book tried loaded_turns (some loaded_status) start.state kept (
      process_journaled_turn book tried
        ((kept, kept, kept) ∷ [])
        (moment kept)
        shop_rules
        true
        (says 1 "apparel")
        start)
unfolding new_conversation member
retry_commits_nothing_example =
    retry_commits_nothing book tried ((kept, kept, kept) ∷ []) (moment kept) shop_rules true
      (says 1 "apparel") start loaded_turns (some loaded_status) the_load refl
