-- ===== src/Conversation/Journal.antt =====
-- The journal of a lead's conversations: src/pitchbot/conversation/journal.py. A turn that is accepted
-- is an event; the checkpoint of a conversation is replayed from its events. The budget of a
-- projection is left out: it is `None` for a turn. An event is of schema version 2.
pub mod Accepting
pub mod Recorded
pub mod Step
pub mod Folded
pub mod Replays
pub mod Load
pub mod Commit
mod Tests
use pitch_bot.Prelude.{
  String, ℕ, ◌+◌, Bool, true, false, not, ◌&&◌, ◌||◌, Option, none, some, List, [], ◌∷◌, ◌++◌, map,
  filter, min, leb, ◌==◌, Dict, member, latest, string_eq, nat_eq, if◌then◌else◌,
}
use pitch_bot.Domain.Facts.{RequirementFact, IntentEvidence, Classification}
use pitch_bot.Conversation.Language.{LanguageCode}
use pitch_bot.Conversation.State.{
  ConversationDisposition, stop, ConversationResult, ConversationState,
}
use pitch_bot.Conversation.Checkpoint.{
  ConversationStateCheckpoint, in_range, all_of, is_closed, same_bool, checkpoint_ok,
  export_checkpoint, facts_by_key_of,
}

pub record ConversationTurnEvent : Type 0 where
  pub session_id : ℕ
  pub operation_id : ℕ
  pub operation_fingerprint : String
  pub turn_digest : String
  pub max_turns : ℕ
  pub max_facts : ℕ
  pub max_evidence : ℕ
  pub max_classifications : ℕ
  pub max_goal_changes : ℕ
  pub digest_key_id : String
  pub abuse_redirected : Bool
  pub stopped : Bool
  pub goal_change_count : ℕ
  pub declared_language : LanguageCode
  pub pending_language : Option LanguageCode
  pub pending_language_count : ℕ
  pub result : ConversationResult

abbrev pub is_stop : ConversationDisposition → Bool
is_stop stop = true
is_stop _ = false

unfoldable pub validate_consistency : ConversationTurnEvent → Bool
validate_consistency e =
    same_bool e.stopped (is_stop e.result.disposition)
    && same_bool e.stopped (is_closed e.result.result_phase)
    && all_of (λ r. member r.replacement_fact_id (map (λ f. f.fact_id) e.result.facts))
        e.result.revisions

-- what the model's constructor accepts
unfoldable pub event_ok : (String → Bool) → ConversationTurnEvent → Bool
event_ok is_digest e =
    is_digest e.operation_fingerprint
    && is_digest e.turn_digest
    && in_range e.max_turns
    && in_range e.max_facts
    && in_range e.max_evidence
    && in_range e.max_classifications
    && in_range e.max_goal_changes
    && is_digest e.digest_key_id
    && validate_consistency e

pub record JournaledConversationTurn : Type 0 where
  pub aggregate_version : ℕ
  pub occurred_at : ℕ
  pub event : ConversationTurnEvent

pub record ConversationReplay : Type 0 where
  pub lead_id : ℕ
  pub session_id : ℕ
  pub aggregate_version : ℕ
  pub checkpoint : ConversationStateCheckpoint
  pub last_result : ConversationResult

-- checkpoint.recent_turn_digests[-1]
abbrev pub last_digest {ℓ} : {A : Type ℓ} → List A → Option A
last_digest [] = none
last_digest (x ∷ []) = some x
last_digest (x ∷ y ∷ ys) = last_digest (y ∷ ys)

abbrev pub event_with :
    ℕ
    → ℕ
    → String
    → ConversationStateCheckpoint
    → ConversationResult
    → String
    → ConversationTurnEvent
event_with session_id operation_id fingerprint c r digest = record {
  session_id = session_id;
  operation_id = operation_id;
  operation_fingerprint = fingerprint;
  turn_digest = digest;
  max_turns = c.max_turns;
  max_facts = c.max_facts;
  max_evidence = c.max_evidence;
  max_classifications = c.max_classifications;
  max_goal_changes = c.max_goal_changes;
  digest_key_id = c.digest_key_id;
  abuse_redirected = c.abuse_redirected;
  stopped = c.stopped;
  goal_change_count = c.goal_change_count;
  declared_language = c.language_state.declared_language;
  pending_language = c.language_state.pending_language;
  pending_language_count = c.language_state.pending_language_count;
  result = r;
}

-- `_event_from_state`, with the check of the event: `None` for a `ValueError`
abbrev pub checked_event : (String → Bool) → ConversationTurnEvent → Option ConversationTurnEvent
checked_event is_digest e = if event_ok is_digest e then some e else none

abbrev pub event_of_digest :
    (String → Bool)
    → ℕ
    → ℕ
    → String
    → ConversationStateCheckpoint
    → ConversationResult
    → Option String
    → Option ConversationTurnEvent
event_of_digest is_digest session_id operation_id fingerprint c r none = none
event_of_digest is_digest session_id operation_id fingerprint c r (some digest) =
    checked_event is_digest (event_with session_id operation_id fingerprint c r digest)

unfoldable pub event_from_state :
    (String → Bool)
    → ℕ
    → ℕ
    → String
    → ConversationStateCheckpoint
    → ConversationResult
    → Option ConversationTurnEvent
event_from_state is_digest session_id operation_id fingerprint c r =
    event_of_digest is_digest session_id operation_id fingerprint c r
      (last_digest c.recent_turn_digests)

-- the configuration does not change
unfoldable pub same_configuration : ConversationTurnEvent → ConversationTurnEvent → Bool
same_configuration e first =
    (e.max_turns == first.max_turns)
    && (e.max_facts == first.max_facts)
    && (e.max_evidence == first.max_evidence)
    && (e.max_classifications == first.max_classifications)
    && (e.max_goal_changes == first.max_goal_changes)
    && string_eq.beq e.digest_key_id first.digest_key_id

-- every record of the result belongs to the lead
unfoldable pub result_leads_ok : ℕ → ConversationResult → Bool
result_leads_ok lead r =
    (r.classification.lead_id == lead)
    && all_of (λ f. f.lead_id == lead) r.facts
    && all_of (λ v. v.lead_id == lead) r.revisions
    && all_of (λ i. i.lead_id == lead) r.new_evidence

unfoldable pub follows : Option ConversationTurnEvent → ConversationTurnEvent → Bool
follows none e = true
follows (some p) e =
    not p.stopped
    && leb p.goal_change_count e.goal_change_count
    && (not p.abuse_redirected || e.abuse_redirected)

-- `_validate_replay_event`
unfoldable pub validate_replay_event :
    ℕ → ℕ → ConversationTurnEvent → Option ConversationTurnEvent → ConversationTurnEvent → Bool
validate_replay_event lead expected_turn first previous e =
    same_configuration e first
    && (e.result.result_turn_count == expected_turn)
    && result_leads_ok lead e.result
    && follows previous e

-- what the loop of a replay goes on with
pub record ReplayFold : Type 0 where
  pub facts_by_key : Dict String RequirementFact
  pub evidence : List IntentEvidence
  pub classifications : List Classification
  pub recent_turn_digests : List String
  pub previous : Option ConversationTurnEvent

abbrev pub empty_fold : ReplayFold
empty_fold = record {
  facts_by_key = [];
  evidence = [];
  classifications = [];
  recent_turn_digests = [];
  previous = none;
}

abbrev pub fold_event : ConversationTurnEvent → ConversationTurnEvent → ReplayFold → ReplayFold
fold_event first e f = record {
  facts_by_key = facts_by_key_of e.result.facts f.facts_by_key;
  evidence = latest first.max_evidence (f.evidence ++ e.result.new_evidence);
  classifications =
      latest first.max_classifications (f.classifications ++ e.result.classification ∷ []);
  recent_turn_digests =
      latest (min first.max_turns 20) (f.recent_turn_digests ++ e.turn_digest ∷ []);
  previous = some e;
}

-- the loop of `_replay_session_events`, from an expected turn on: `None` for a corrupted journal
unfoldable pub fold_events :
    ℕ → ℕ → ConversationTurnEvent → ReplayFold → List ConversationTurnEvent → Option ReplayFold
fold_events lead expected_turn first f [] = some f
fold_events lead expected_turn first f (e ∷ events) =
    let rest = fold_events lead (expected_turn + 1) first (fold_event first e f) events in
    if validate_replay_event lead expected_turn first f.previous e then rest else none

abbrev pub replayed_checkpoint :
    ℕ → ConversationTurnEvent → ConversationTurnEvent → ReplayFold → ConversationStateCheckpoint
replayed_checkpoint lead first p f = record {
  lead_id = lead;
  max_turns = first.max_turns;
  max_facts = first.max_facts;
  max_evidence = first.max_evidence;
  max_classifications = first.max_classifications;
  max_goal_changes = first.max_goal_changes;
  digest_key_id = first.digest_key_id;
  phase = p.result.result_phase;
  turn_count = p.result.result_turn_count;
  abuse_redirected = p.abuse_redirected;
  stopped = p.stopped;
  recent_turn_digests = f.recent_turn_digests;
  facts = map (λ entry. entry.1) f.facts_by_key;
  evidence = f.evidence;
  classifications = f.classifications;
  goal_change_count = p.goal_change_count;
  language_state = record {
    language = p.result.language;
    declared_language = p.declared_language;
    pending_language = p.pending_language;
    pending_language_count = p.pending_language_count;
  };
}

pub data JournalError : Type 0 where
  not_found conflict operation_conflict corrupted history_unavailable value_error storage_error :
      JournalError

pub data Journal {ℓ} (A : Type ℓ) : Type ℓ where
  failed : JournalError → Journal A
  done : A → Journal A

-- the end of `_replay_session_events`
abbrev pub replay_from :
    (String → Bool)
    → ℕ
    → ℕ
    → ℕ
    → ConversationTurnEvent
    → Option ConversationTurnEvent
    → ReplayFold
    → Journal ConversationReplay
replay_from is_digest lead session_id version first none f = failed corrupted
replay_from is_digest lead session_id version first (some p) f =
    let c = replayed_checkpoint lead first p f in
    if checkpoint_ok is_digest c
    then done (record {
      lead_id = lead;
      session_id = session_id;
      aggregate_version = version;
      checkpoint = c;
      last_result = p.result;
    })
    else failed value_error

abbrev pub replay_folded :
    (String → Bool)
    → ℕ
    → ℕ
    → ℕ
    → ConversationTurnEvent
    → Option ReplayFold
    → Journal ConversationReplay
replay_folded is_digest lead session_id version first none = failed corrupted
replay_folded is_digest lead session_id version first (some f) =
    replay_from is_digest lead session_id version first f.previous f

-- `_replay_session_events`, with the version of the aggregate
unfoldable pub replay_session_events :
    (String → Bool) → ℕ → ℕ → ℕ → List ConversationTurnEvent → Journal ConversationReplay
replay_session_events is_digest lead session_id version [] = failed not_found
replay_session_events is_digest lead session_id version (first ∷ events) =
    replay_folded is_digest lead session_id version first
      (fold_events lead 1 first empty_fold (first ∷ events))

-- the event that `commit_turn` proposes
abbrev pub event_for :
    (String → Bool)
    → ℕ
    → ℕ
    → String
    → ConversationResult
    → Option ConversationStateCheckpoint
    → Option ConversationTurnEvent
event_for is_digest session_id operation_id fingerprint r none = none
event_for is_digest session_id operation_id fingerprint r (some c) =
    event_from_state is_digest session_id operation_id fingerprint c r

unfoldable pub proposed_event :
    (String → Bool)
    → ℕ
    → ℕ
    → String
    → ConversationResult
    → ConversationState
    → Option ConversationTurnEvent
proposed_event is_digest session_id operation_id fingerprint r s =
    event_for is_digest session_id operation_id fingerprint r (export_checkpoint is_digest s)
