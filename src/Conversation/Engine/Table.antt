-- ===== src/Conversation/Engine/Table.antt =====
-- The sessions of `ConversationEngine` in src/pitchbot/conversation/engine.py: its two dicts, of states
-- and of briefings, and its operations on them. A session identifier is a number. The rules depend on
-- the session, as the digest of a turn does. `None` for an error: the session exists already, or there
-- is none.
pub mod Isolation
use pitch_bot.Prelude.{
  String, ℕ, Bool, false, ◌||◌, Option, none, some, is_none, List, [], ◌∷◌, map, ltb, min, Dict,
  get, put, remove, nat_eq, if◌then◌else◌,
}
use pitch_bot.Domain.Facts.{RequirementFact, IntentEvidence, Classification}
use pitch_bot.Deliberation.Briefing.{
  Briefing, new_briefing, SitePlan, Deliberation, current_deliberation, conclude,
}
use pitch_bot.Conversation.State.{ConversationState, ConversationPhase, new_conversation}
use pitch_bot.Conversation.Checkpoint.{
  ConversationStateCheckpoint, Restored, restore_failed, restored, restore_checkpoint,
  replace_checkpoint,
}
use pitch_bot.Conversation.Engine.{TextRules, Turn, Session}
use pitch_bot.Conversation.Engine.Process.{
  TurnOutcome, capacity_reached, conversation_closed, answered, briefing_or_new, process_turn,
}

pub record ConversationEngine : Type 0 where
  pub max_turns : ℕ
  pub max_facts : ℕ
  pub max_evidence : ℕ
  pub max_classifications : ℕ
  pub max_goal_changes : ℕ
  pub digest_key_id : String
  pub detect_language_switch : Bool
  pub states : Dict ℕ ConversationState
  pub briefings : Dict ℕ Briefing

-- the key is too short, when there is one: its length is given
abbrev pub short_key : Option ℕ → Bool
short_key none = false
short_key (some n) = ltb n 32

unfoldable pub new_engine : ℕ → ℕ → ℕ → ℕ → ℕ → Option ℕ → String → Bool → Option ConversationEngine
new_engine max_turns max_facts max_evidence max_classifications max_goal_changes key_length key
      detects =
    if ltb max_goal_changes 1
      || ltb (min (min max_turns max_facts) (min max_evidence max_classifications)) 1
      || short_key key_length
    then none
    else some (record {
      max_turns = max_turns;
      max_facts = max_facts;
      max_evidence = max_evidence;
      max_classifications = max_classifications;
      max_goal_changes = max_goal_changes;
      digest_key_id = key;
      detect_language_switch = detects;
      states = [];
      briefings = [];
    })

unfoldable pub create_session : ℕ → ℕ → ConversationEngine → Option ConversationEngine
create_session id lead e =
    if is_none (get id e.states)
    then some (record e {
      states =
          put id
            (new_conversation lead e.max_turns e.max_facts e.max_evidence e.max_classifications
              e.max_goal_changes e.digest_key_id)
            e.states;
    })
    else none

abbrev pub put_briefing : ℕ → Option Briefing → Dict ℕ Briefing → Dict ℕ Briefing
put_briefing id none d = d
put_briefing id (some b) d = put id b d

-- what an answer leaves in the dicts, and a refusal does not touch
abbrev pub store_outcome : ℕ → TurnOutcome → ConversationEngine → ConversationEngine
store_outcome id capacity_reached e = e
store_outcome id conversation_closed e = e
store_outcome id (answered result session) e = record e {
  states = put id session.state e.states;
  briefings = put_briefing id session.briefing e.briefings;
}

-- a turn of a session that is there
abbrev pub take_turn :
    TextRules
    → ℕ
    → Turn
    → Option ConversationState
    → ConversationEngine
    → Option (TurnOutcome × ConversationEngine)
take_turn rules id turn none e = none
take_turn rules id turn (some s) e =
    let outcome =
      process_turn rules e.detect_language_switch turn
        (record { state = s; briefing = get id e.briefings }) in
    some (outcome, store_outcome id outcome e)

unfoldable pub process_session_turn :
    (ℕ → TextRules) → ℕ → Turn → ConversationEngine → Option (TurnOutcome × ConversationEngine)
process_session_turn rules id turn e = take_turn (rules id) id turn (get id e.states) e

pub record ConversationSnapshot : Type 0 where
  pub lead_id : ℕ
  pub phase : ConversationPhase
  pub turn_count : ℕ
  pub abuse_redirected : Bool
  pub stopped : Bool
  pub facts : List RequirementFact
  pub evidence : List IntentEvidence
  pub classifications : List Classification

abbrev pub snapshot_of : ConversationState → ConversationSnapshot
snapshot_of s = record {
  lead_id = s.lead_id;
  phase = s.phase;
  turn_count = s.turn_count;
  abuse_redirected = s.abuse_redirected;
  stopped = s.stopped;
  facts = map (λ entry. entry.1) s.facts_by_key;
  evidence = s.evidence;
  classifications = s.classifications;
}

unfoldable pub snapshot : ℕ → ConversationEngine → Option ConversationSnapshot
snapshot id e = elim (get id e.states) [ none ↦ none | some s ↦ some (snapshot_of s) ]

abbrev pub store_states : Restored → ConversationEngine → Option ConversationEngine
store_states (restore_failed error) e = none
store_states (restored states) e = some (record e { states = states })

unfoldable pub restore_session :
    ℕ → ConversationStateCheckpoint → ConversationEngine → Option ConversationEngine
restore_session id c e = store_states (restore_checkpoint e.digest_key_id id c e.states) e

unfoldable pub replace_session :
    ℕ → ConversationStateCheckpoint → ConversationEngine → Option ConversationEngine
replace_session id c e = store_states (replace_checkpoint e.digest_key_id id c e.states) e

unfoldable pub close_session : ℕ → ConversationEngine → ConversationEngine
close_session id e = record e { states = remove id e.states; briefings = remove id e.briefings }

-- `briefing`, created on first use
unfoldable pub session_briefing : ℕ → ConversationEngine → Briefing × ConversationEngine
session_briefing id e =
    let b = briefing_or_new (get id e.briefings) in
    (b, record e { briefings = put id b e.briefings })

-- the plan of a deliberation
abbrev pub plan_in : Option Deliberation → Option SitePlan
plan_in none = none
plan_in (some d) = some d.plan

unfoldable pub site_plan : ℕ → ConversationEngine → Option SitePlan
site_plan id e = elim (get id e.briefings) [
  | none ↦ none
  | some b ↦ plan_in (current_deliberation b)
]

-- the slow lane stores what it concludes in the briefing of a session
unfoldable pub conclude_session : ℕ → Deliberation → ConversationEngine → ConversationEngine
conclude_session id d e =
    let (b, after) = session_briefing id e in
    record after { briefings = put id (conclude d b).1 after.briefings }
