-- ===== src/Conversation/State.antt =====
-- The state of a conversation and what a turn answers: src/pitchbot/conversation/state.py and
-- src/pitchbot/conversation/models.py. The four language fields are the record of
-- Conversation/Language. A deque with a maximal length is a list that `latest` cuts; a set of slots
-- and the counts of slots are functions, as in Conversation/Planning.
use pitch_bot.Prelude.{String, ℕ, Bool, false, List, [], Dict, min}
use pitch_bot.Domain.Facts.{RequirementFact, RequirementRevision, IntentEvidence, Classification}
use pitch_bot.Conversation.Language.{LanguageCode, LanguageState, new_state}
use pitch_bot.Conversation.Planning.{Slot, Phrase}

pub data ConversationDisposition : Type 0 where
  continue redirect stop review : ConversationDisposition

pub data SafetySignal : Type 0 where
  opt_out abuse internal_info prompt_injection excessive_goal_changes : SafetySignal

pub data ConversationPhase : Type 0 where
  discovery qualification next_step closed : ConversationPhase

-- A reply by its key in a language's table, or composed of the planner's phrases.
pub data FixedReply : Type 0 where
  opt_out_reply abuse_redirect abuse_stop unsafe_request clarify_goals : FixedReply

pub data Reply : Type 0 where
  fixed : LanguageCode → FixedReply → Reply
  composed : LanguageCode → List Phrase → Reply

pub record ConversationResult : Type 0 where
  pub reply : Reply
  pub language : LanguageCode
  pub language_switched : Bool
  pub disposition : ConversationDisposition
  pub result_phase : ConversationPhase
  pub safety_signals : List SafetySignal
  pub facts : List RequirementFact
  pub revisions : List RequirementRevision
  pub new_evidence : List IntentEvidence
  pub classification : Classification
  pub repeated_turn : Bool
  pub result_turn_count : ℕ

pub record ConversationState : Type 0 where
  pub lead_id : ℕ
  pub max_turns : ℕ
  pub max_facts : ℕ
  pub max_evidence : ℕ
  pub max_classifications : ℕ
  pub max_goal_changes : ℕ
  pub digest_key_id : String
  pub phase : ConversationPhase
  pub turn_count : ℕ
  pub abuse_redirected : Bool
  pub stopped : Bool
  pub recent_turn_digests : List String
  pub facts_by_key : Dict String RequirementFact
  pub evidence : List IntentEvidence
  pub classifications : List Classification
  pub goal_change_count : ℕ
  pub asked_slot_counts : Slot → ℕ
  pub closing_count : ℕ
  pub understood_slot_keys : Slot → Bool
  pub language_state : LanguageState

abbrev pub digest_capacity : ConversationState → ℕ
digest_capacity s = min s.max_turns 20

-- a state as `create_session` makes it, with the capacities of the engine
unfoldable pub new_conversation : ℕ → ℕ → ℕ → ℕ → ℕ → ℕ → String → ConversationState
new_conversation lead max_turns max_facts max_evidence max_classifications max_goal_changes key =
    record {
      lead_id = lead;
      max_turns = max_turns;
      max_facts = max_facts;
      max_evidence = max_evidence;
      max_classifications = max_classifications;
      max_goal_changes = max_goal_changes;
      digest_key_id = key;
      phase = discovery;
      turn_count = 0;
      abuse_redirected = false;
      stopped = false;
      recent_turn_digests = [];
      facts_by_key = [];
      evidence = [];
      classifications = [];
      goal_change_count = 0;
      asked_slot_counts = λ slot. 0;
      closing_count = 0;
      understood_slot_keys = λ slot. false;
      language_state = new_state;
    }
