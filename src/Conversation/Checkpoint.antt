-- ===== src/Conversation/Checkpoint.antt =====
-- The durable form of a conversation: `ConversationStateCheckpoint` of
-- src/pitchbot/conversation/models.py with `validate_checkpoint`, and `export_checkpoint`,
-- `_state_from_checkpoint`, `restore_checkpoint` and `replace_checkpoint` of
-- src/pitchbot/conversation/engine.py. The checkpoint is of schema version 2. `is_digest` tests a text
-- for 64 hexadecimal digits.
pub mod Laws
use pitch_bot.Prelude.{
  String, ℕ, Bool, true, false, not, ◌&&◌, ◌||◌, Option, none, some, is_none, List, [], ◌∷◌, ◌++◌,
  map, length, min, leb, ◌==◌, Dict, get, put, latest, from_keys, string_eq, nat_eq, if◌then◌else◌,
}
use pitch_bot.Domain.Facts.{RequirementFact, IntentEvidence, Classification}
use pitch_bot.Conversation.Language.{LanguageCode, LanguageState}
use pitch_bot.Conversation.State.{ConversationPhase, closed, ConversationState, digest_capacity}

pub record ConversationStateCheckpoint : Type 0 where
  pub lead_id : ℕ
  pub max_turns : ℕ
  pub max_facts : ℕ
  pub max_evidence : ℕ
  pub max_classifications : ℕ
  pub max_goal_changes : ℕ
  pub digest_key_id : String
  pub phase : ConversationPhase
  pub turn_count : ℕ
  pub abuse_redirected : Bool
  pub stopped : Bool
  pub recent_turn_digests : List String
  pub facts : List RequirementFact
  pub evidence : List IntentEvidence
  pub classifications : List Classification
  pub goal_change_count : ℕ
  pub language_state : LanguageState

abbrev pub max_capacity : ℕ
max_capacity = 10000

abbrev pub in_range : ℕ → Bool
in_range n = leb 1 n && leb n max_capacity

unfoldable pub all_of {ℓ} : {A : Type ℓ} → (A → Bool) → List A → Bool
all_of test [] = true
all_of test (x ∷ xs) = test x && all_of test xs

abbrev pub is_closed : ConversationPhase → Bool
is_closed closed = true
is_closed _ = false

abbrev pub same_bool : Bool → Bool → Bool
same_bool true b = b
same_bool false b = not b

-- the bounds of the capacities and of the lists
unfoldable pub fields_ok : ConversationStateCheckpoint → Bool
fields_ok c =
    in_range c.max_turns
    && in_range c.max_facts
    && in_range c.max_evidence
    && in_range c.max_classifications
    && in_range c.max_goal_changes
    && leb (length c.recent_turn_digests) 20
    && leb (length c.facts) max_capacity
    && leb (length c.evidence) max_capacity
    && leb (length c.classifications) max_capacity

-- the records belong to the lead
unfoldable pub leads_ok : ConversationStateCheckpoint → Bool
leads_ok c =
    all_of (λ f. f.lead_id == c.lead_id) c.facts
    && all_of (λ i. i.lead_id == c.lead_id) c.evidence
    && all_of (λ r. r.lead_id == c.lead_id) c.classifications

unfoldable pub validate_checkpoint : (String → Bool) → ConversationStateCheckpoint → Bool
validate_checkpoint is_digest c =
    leb c.turn_count c.max_turns
    && leb (length c.recent_turn_digests) (min c.max_turns 20)
    && all_of is_digest c.recent_turn_digests
    && leb (length c.facts) c.max_facts
    && leb (length c.evidence) c.max_evidence
    && leb (length c.classifications) c.max_classifications
    && (length (from_keys (map (λ f. f.key) c.facts)) == length c.facts)
    && leads_ok c
    && same_bool c.stopped (is_closed c.phase)
    && same_bool (is_none c.language_state.pending_language)
        (c.language_state.pending_language_count == 0)

-- what the model's constructor accepts
unfoldable pub checkpoint_ok : (String → Bool) → ConversationStateCheckpoint → Bool
checkpoint_ok is_digest c =
    fields_ok c && is_digest c.digest_key_id && validate_checkpoint is_digest c

-- the checkpoint of a state, before it is checked
unfoldable pub checkpoint_of : ConversationState → ConversationStateCheckpoint
checkpoint_of s = record {
  lead_id = s.lead_id;
  max_turns = s.max_turns;
  max_facts = s.max_facts;
  max_evidence = s.max_evidence;
  max_classifications = s.max_classifications;
  max_goal_changes = s.max_goal_changes;
  digest_key_id = s.digest_key_id;
  phase = s.phase;
  turn_count = s.turn_count;
  abuse_redirected = s.abuse_redirected;
  stopped = s.stopped;
  recent_turn_digests = s.recent_turn_digests;
  facts = map (λ entry. entry.1) s.facts_by_key;
  evidence = s.evidence;
  classifications = s.classifications;
  goal_change_count = s.goal_change_count;
  language_state = s.language_state;
}

unfoldable pub export_checkpoint :
    (String → Bool) → ConversationState → Option ConversationStateCheckpoint
export_checkpoint is_digest s =
    let c = checkpoint_of s in if checkpoint_ok is_digest c then some c else none

-- {fact.key: fact for fact in facts}, on a dict so far
unfoldable pub facts_by_key_of :
    List RequirementFact → Dict String RequirementFact → Dict String RequirementFact
facts_by_key_of [] d = d
facts_by_key_of (fact ∷ facts) d = facts_by_key_of facts (put fact.key fact d)

unfoldable pub state_from_checkpoint :
    String → ConversationStateCheckpoint → Option ConversationState
state_from_checkpoint digest_key_id c =
    if not (string_eq.beq c.digest_key_id digest_key_id)
    then none
    else some (record {
      lead_id = c.lead_id;
      max_turns = c.max_turns;
      max_facts = c.max_facts;
      max_evidence = c.max_evidence;
      max_classifications = c.max_classifications;
      max_goal_changes = c.max_goal_changes;
      digest_key_id = c.digest_key_id;
      phase = c.phase;
      turn_count = c.turn_count;
      abuse_redirected = c.abuse_redirected;
      stopped = c.stopped;
      recent_turn_digests = latest (min c.max_turns 20) c.recent_turn_digests;
      facts_by_key = facts_by_key_of c.facts [];
      evidence = latest c.max_evidence c.evidence;
      classifications = latest c.max_classifications c.classifications;
      goal_change_count = c.goal_change_count;
      asked_slot_counts = λ slot. 0;
      closing_count = 0;
      understood_slot_keys = λ slot. false;
      language_state = c.language_state;
    })

pub data RestoreError : Type 0 where
  session_exists session_not_found digest_key_differs : RestoreError

pub data Restored : Type 0 where
  restore_failed : RestoreError → Restored
  restored : Dict ℕ ConversationState → Restored

abbrev pub store_restored : ℕ → Dict ℕ ConversationState → Option ConversationState → Restored
store_restored session_id states none = restore_failed digest_key_differs
store_restored session_id states (some s) = restored (put session_id s states)

unfoldable pub restore_checkpoint :
    String → ℕ → ConversationStateCheckpoint → Dict ℕ ConversationState → Restored
restore_checkpoint digest_key_id session_id c states =
    if is_none (get session_id states)
    then store_restored session_id states (state_from_checkpoint digest_key_id c)
    else restore_failed session_exists

unfoldable pub replace_checkpoint :
    String → ℕ → ConversationStateCheckpoint → Dict ℕ ConversationState → Restored
replace_checkpoint digest_key_id session_id c states =
    if is_none (get session_id states)
    then restore_failed session_not_found
    else store_restored session_id states (state_from_checkpoint digest_key_id c)
