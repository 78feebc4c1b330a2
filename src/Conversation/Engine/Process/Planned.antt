-- ===== src/Conversation/Engine/Process/Planned.antt =====
-- The planned reply of a turn in src/pitchbot/conversation/engine.py, with `_understanding_for` and
-- `_record_observations`. A value that is not blank is not blank either once it is stripped and cut,
-- so `Briefing.observe` does not fail here.
use pitch_bot.Prelude.{
  String, ℕ, ◌+◌, Bool, not, ◌&&◌, ◌||◌, Option, none, some, List, [], ◌∷◌, map, Dict, get,
  string_eq, if◌then◌else◌,
}
use pitch_bot.Domain.Json.{text}
use pitch_bot.Domain.Facts.{RequirementFact}
use pitch_bot.Deliberation.Briefing.{Topic, Briefing, new_briefing, observe_topic}
use pitch_bot.Conversation.Planning.{
  Slot, same_slot, TurnUnderstanding, ReplyPlan, is_closing, is_ready, understanding_from_facts,
  max_asks_per_slot, plan_reply, render_reply,
}
use pitch_bot.Conversation.State.{Reply, composed, ConversationState}
use pitch_bot.Conversation.Engine.{TextRules, Turn}
use pitch_bot.Conversation.Engine.Process.Short.{Heard}

-- `_business_type`
unfoldable pub business_type_of : Dict String RequirementFact → Option String
business_type_of facts = elim (get "business_type" facts) [
  | none ↦ none
  | some fact ↦ elim fact.value [ text value ↦ some value | _ ↦ none ]
]

-- `_understanding_for`
unfoldable pub understanding_for :
    TextRules → Turn → List RequirementFact → ConversationState → TurnUnderstanding
understanding_for rules turn accepted s =
    let base =
      understanding_from_facts rules.business_types (map (λ e. e.0) s.facts_by_key)
        (map (λ f. f.key) accepted) (business_type_of s.facts_by_key) in
    let known = λ (slot : Slot). base.known_slots slot || s.understood_slot_keys slot in
    record {
      known_slots = elim turn.understanding [
        | none ↦ known
        | some u ↦ λ slot. known slot || u.known_slots slot
      ];
      filled_now = elim turn.understanding [
        | none ↦ base.filled_now
        | some u ↦ λ slot. base.filled_now slot || u.filled_now slot
      ];
      intent = rules.detect_intent turn.turn_text;
      business_type_key = base.business_type_key;
    }

-- `_TOPICS.get`
abbrev pub topic_of : String → Option Topic
topic_of key =
    if string_eq.beq key "business_type"
    then some Topic.business_type
    else if string_eq.beq key "requested_features"
    then some Topic.requested_features
    else if string_eq.beq key "budget_stated"
    then some Topic.budget_stated
    else if string_eq.beq key "timeline"
    then some Topic.timeline
    else none

unfoldable pub record_fact : TextRules → RequirementFact → Briefing → Briefing
record_fact rules fact b = elim (topic_of fact.key) [
  | none ↦ b
  | some topic ↦ elim fact.value [
    | text value ↦
        if string_eq.beq (rules.strip value) ""
        then b
        else (observe_topic rules.strip rules.cut topic value b).1
    | _ ↦ b
  ]
]

unfoldable pub record_facts : TextRules → List RequirementFact → Briefing → Briefing
record_facts rules [] b = b
record_facts rules (fact ∷ facts) b = record_facts rules facts (record_fact rules fact b)

abbrev pub briefing_or_new : Option Briefing → Briefing
briefing_or_new none = new_briefing
briefing_or_new (some b) = b

-- `_record_observations`
unfoldable pub record_observations :
    TextRules → List RequirementFact → Option Briefing → Option Briefing
record_observations rules [] briefing = briefing
record_observations rules (fact ∷ facts) briefing =
    some (record_facts rules (fact ∷ facts) (briefing_or_new briefing))

abbrev pub add_slots : (Slot → Bool) → Option TurnUnderstanding → Slot → Bool
add_slots keys none = keys
add_slots keys (some u) = λ slot. keys slot || u.filled_now slot

abbrev pub count_ask : Option Slot → (Slot → ℕ) → Slot → ℕ
count_ask none counts = counts
count_ask (some asked) counts =
    λ slot. if same_slot asked slot then counts slot + 1 else counts slot

abbrev pub asked_before : Option Slot → (Slot → ℕ) → ℕ
asked_before none counts = 0
asked_before (some asked) counts = counts asked

-- the state once a planned reply is sent
abbrev pub after_plan : ReplyPlan → ConversationState → ConversationState
after_plan plan s = record s {
  asked_slot_counts = count_ask plan.asked s.asked_slot_counts;
  closing_count =
      s.closing_count + (if is_closing plan && not (is_ready plan.plan_intent) then 1 else 0);
}

unfoldable pub plan_turn :
    TextRules → Turn → Heard → List RequirementFact → ConversationState → Reply × ConversationState
plan_turn rules turn h accepted s =
    let known = record s {
      understood_slot_keys = add_slots s.understood_slot_keys turn.understanding;
    } in
    let plan =
      plan_reply (understanding_for rules turn accepted known) h.repeated known.asked_slot_counts
        max_asks_per_slot in
    let rendered =
      render_reply plan h.spoken h.repeated h.switched known.closing_count
        (asked_before plan.asked known.asked_slot_counts) in
    (composed rendered.0 rendered.1, after_plan plan known)
