-- ===== src/Conversation/Engine/Tests.antt =====
-- Short conversations by rules that read a few fixed texts.
use pitch_bot.Prelude.{
  String, ℕ, ◌≤◌, ◌*◌, ◌+◌, ◌≡◌, refl, Bool, true, false, none, some, List, [], ◌∷◌, put, get,
  member, latest, string_eq, nat_eq, if◌then◌else◌,
}
use pitch_bot.Domain.Facts.{IntentEvidence, up}
use pitch_bot.Conversation.Language.{english, no_evidence}
use pitch_bot.Conversation.Planning.{budget, ready, TurnUnderstanding}
use pitch_bot.Conversation.State.{
  ConversationState, new_conversation, SafetySignal, opt_out, abuse, opt_out_reply,
}
use pitch_bot.Conversation.Checkpoint.{
  checkpoint_of, export_checkpoint, restore_checkpoint, restored,
}
use pitch_bot.Conversation.Checkpoint.Laws.{without_transients}
use pitch_bot.Conversation.Engine.{
  TextRules, Turn, Session, has_signal, accept_facts, accept_fact, extract_business_signals,
  extract_facts, new_dimensions, by_replacement,
}
use pitch_bot.Conversation.Classify.{classify, phase_for}
use pitch_bot.Conversation.Engine.Process.{
  process_turn, run_turns, hear, dispatch_turn, end_for_opt_out, answer_abuse, converse, respond,
  plan_turn, take_facts, take_evidence,
}
use pitch_bot.Conversation.Engine.Parts.{RulesOk}
use pitch_bot.Conversation.Engine.Sessions.{session_survives_restart}
use pitch_bot.Conversation.Engine.Asking.{total_asked, asked_at_most_twice}
use pitch_bot.Conversation.Engine.Safety.{Ends, RatedCold, Strike, opt_out_closes, abuse_strikes}
use pitch_bot.Conversation.Engine.Reading.{
  AlikeOutcomes, reading_changes_words_only, safety_ignores_reading,
}
use pitch_bot.Conversation.Engine.Table.{ConversationEngine, process_session_turn}
use pitch_bot.Conversation.Engine.Table.Isolation.{
  EngineCall, create, say, close_it, call_all, SameSession, outcome_of, others_unseen,
}

abbrev signals_of : String → List SafetySignal
signals_of t =
    if string_eq.beq t "stop"
    then opt_out ∷ []
    else if string_eq.beq t "idiot"
    then abuse ∷ []
    else []

abbrev evidence_for : ℕ → String → ℕ → Bool → List IntentEvidence
evidence_for lead t span recorded =
    record { evidence_id = span; lead_id = lead; dimension = "budget"; weight = up 30 } ∷ []

abbrev pub shop_rules : TextRules
shop_rules = record {
  digest = λ t. t;
  detect_safety_signals = signals_of;
  candidates = λ t. ("business_type", t) ∷ [];
  extract_evidence = evidence_for;
  detect_intent = λ t. none;
  detect_language = λ t heard. record { language = none; evidence = no_evidence };
  business_types = λ key. string_eq.beq key "apparel";
  rule_version = "2";
  strip = λ t. t;
  cut = λ n t. t;
}

pub shop_rules-RulesOk : RulesOk (λ t. true) shop_rules
shop_rules-RulesOk = record { hex = λ t. refl; own = λ lead t span recorded. (refl, tt) }

abbrev pub says : ℕ → String → Turn
says n t = record {
  turn_text = t;
  declared = english;
  transcribed_as = none;
  source_span_id = n;
  understanding = none;
  new_fact_id = λ i. 10 * n + i;
  new_revision_id = λ i. 10 * n + i;
}

abbrev chat : List Turn
chat = says 1 "apparel" ∷ says 2 "cafe" ∷ says 3 "cafe" ∷ says 4 "idiot" ∷ says 5 "stop" ∷ []

abbrev pub start : Session
start = record { state = new_conversation 7 50 9 9 9 3 "key"; briefing = none }

abbrev guess : TurnUnderstanding
guess = record {
  known_slots = λ slot. true;
  filled_now = λ slot. true;
  intent = some ready;
  business_type_key = none;
}

-- the test: a goal change is counted, the repetition is not, and the opt-out ends it
chat_state :
    ((run_turns shop_rules false chat start).state.goal_change_count ≡ 1)
    × ((run_turns shop_rules false chat start).state.turn_count ≡ 5)
    × ((run_turns shop_rules false chat start).state.stopped ≡ true)
unfolding new_conversation run_turns process_turn hear dispatch_turn end_for_opt_out answer_abuse
    converse respond plan_turn take_facts take_evidence accept_facts accept_fact
    extract_business_signals extract_facts new_dimensions by_replacement classify phase_for get put
    member latest has_signal
chat_state = (refl, refl, refl)

abbrev chatted : ConversationState
chatted = (run_turns shop_rules false chat start).state

session_survives_restart_example :
    (export_checkpoint (λ t. true) chatted ≡ some (checkpoint_of chatted))
    × (restore_checkpoint "key" 1 (checkpoint_of chatted) []
        ≡ restored (put 1 (without_transients chatted) []))
unfolding new_conversation get
session_survives_restart_example =
    session_survives_restart (λ t. true) shop_rules false chat 7 50 9 9 9 3 "key" 1 []
      shop_rules-RulesOk (refl, refl, refl, refl, refl, refl) refl

asked_at_most_twice_example : total_asked shop_rules false chat start budget ≤ 2
asked_at_most_twice_example = asked_at_most_twice shop_rules false chat budget 7 50 9 9 9 3 "key"

abbrev stopping : Turn
stopping = says 1 "stop"

opt_out_closes_example :
    Ends shop_rules false opt_out_reply (process_turn shop_rules false stopping start)
    × RatedCold (process_turn shop_rules false stopping start)
unfolding new_conversation has_signal
opt_out_closes_example = opt_out_closes shop_rules false stopping start (refl, refl) refl

abuse_strikes_example :
    Strike shop_rules false false (process_turn shop_rules false (says 1 "idiot") start)
unfolding new_conversation has_signal
abuse_strikes_example = abuse_strikes shop_rules false (says 1 "idiot") start (refl, refl) refl refl

reading_changes_words_only_example :
    AlikeOutcomes
      (process_turn shop_rules false (record (says 1 "cafe") { understanding = some guess }) start)
      (process_turn shop_rules false (says 1 "cafe") start)
reading_changes_words_only_example =
    reading_changes_words_only shop_rules false (says 1 "cafe") (some guess) none start

safety_ignores_reading_example :
    process_turn shop_rules false (record (says 1 "idiot") { understanding = some guess }) start
    ≡ process_turn shop_rules false (says 1 "idiot") start
unfolding has_signal
safety_ignores_reading_example =
    safety_ignores_reading shop_rules false (says 1 "idiot") (some guess) none start refl

abbrev two_sessions : ConversationEngine
two_sessions = record {
  max_turns = 50;
  max_facts = 9;
  max_evidence = 9;
  max_classifications = 9;
  max_goal_changes = 3;
  digest_key_id = "key";
  detect_language_switch = false;
  states = (1, start.state) ∷ (2, start.state) ∷ [];
  briefings = [];
}

abbrev elsewhere : List (ℕ × EngineCall)
elsewhere = (2, say (says 1 "stop")) ∷ (2, close_it) ∷ (3, create 8) ∷ []

others_unseen_example :
    SameSession 1 (call_all (λ id. shop_rules) elsewhere two_sessions) two_sessions
    × (outcome_of (
          process_session_turn
            (λ id. shop_rules)
            1
            (says 2 "cafe")
            (call_all (λ id. shop_rules) elsewhere two_sessions))
        ≡ outcome_of (process_session_turn (λ id. shop_rules) 1 (says 2 "cafe") two_sessions))
others_unseen_example =
    others_unseen (λ id. shop_rules) 1 elsewhere two_sessions (says 2 "cafe")
      (refl, (refl, (refl, tt)))
