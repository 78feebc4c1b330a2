-- ===== src/Conversation/Engine/Process.antt =====
-- `ConversationEngine.process_turn` of src/pitchbot/conversation/engine.py, on one session: Short has
-- its beginning and the answers that end it early, Planned the planned reply.
mod Short
mod Planned
unfoldable pub use Short.*
unfoldable pub use Planned.*
use pitch_bot.Prelude.{
  Bool, true, false, ◌||◌, Option, List, [], ◌∷◌, ◌++◌, map, leb, latest, if◌then◌else◌,
}
use pitch_bot.Domain.Facts.{RequirementFact, IntentEvidence}
use pitch_bot.Deliberation.Briefing.{Briefing}
use pitch_bot.Conversation.Planning.{table_of}
use pitch_bot.Conversation.State.{
  ConversationDisposition, continue, review, SafetySignal, opt_out, abuse, internal_info,
  prompt_injection, excessive_goal_changes, clarify_goals, Reply, fixed, ConversationResult,
  ConversationState,
}
use pitch_bot.Conversation.Classify.{classify, phase_for}
use pitch_bot.Conversation.Engine.{
  TextRules, Turn, Session, has_signal, ExtractionResult, extract_business_signals,
  nothing_extracted, by_replacement, Accepted, accept_facts, new_dimensions,
}

-- what the facts and the evidence of a turn change
unfoldable pub take_facts : ExtractionResult → ConversationState → Accepted × ConversationState
take_facts extraction s =
    let accepted =
      accept_facts s.max_facts (by_replacement extraction.revisions []) extraction.facts (record {
        facts_by_key = s.facts_by_key;
        goal_change_count = s.goal_change_count;
        facts = [];
        revisions = [];
      }) in
    (
      accepted,
      record s {
        facts_by_key = accepted.facts_by_key;
        goal_change_count = accepted.goal_change_count;
      },
    )

abbrev pub fresh_evidence : ExtractionResult → ConversationState → List IntentEvidence
fresh_evidence extraction s =
    new_dimensions (map (λ item. item.dimension) s.evidence) extraction.evidence

unfoldable pub take_evidence : List IntentEvidence → ConversationState → ConversationState
take_evidence items s = record s { evidence = latest s.max_evidence (s.evidence ++ items) }

-- the reply and the disposition, once facts and evidence are taken
unfoldable pub respond :
    TextRules
    → Turn
    → Heard
    → List RequirementFact
    → Session
    → (Reply × ConversationDisposition × List SafetySignal) × Session
respond rules turn h accepted session =
    let s = session.state in
    let planned = plan_turn rules turn h accepted s in
    if leb s.max_goal_changes s.goal_change_count
    then (
      (fixed (table_of h.spoken) clarify_goals, review, h.signals ++ excessive_goal_changes ∷ []),
      session,
    )
    else (
      (planned.0, continue, h.signals),
      record { state = planned.1; briefing = record_observations rules accepted session.briefing },
    )

-- the rest of a turn that is talked further about, from what is extracted from it
abbrev pub converse_on :
    TextRules → Turn → Heard → ExtractionResult → Session → ConversationResult × Session
converse_on rules turn h extraction session =
    let taken = take_facts extraction session.state in
    let items = fresh_evidence extraction taken.1 in
    let responded =
      respond rules turn h ((taken.0).facts)
        (record { state = take_evidence items taken.1; briefing = session.briefing }) in
    let classified = classify rules.rule_version false (responded.1).state in
    let final = record (classified.1) { phase = phase_for (classified.0) } in
    (
      record {
        reply = responded.0.0;
        language = h.spoken;
        language_switched = h.switched;
        disposition = responded.0.1;
        result_phase = final.phase;
        safety_signals = responded.0.2;
        facts = (taken.0).facts;
        revisions = (taken.0).revisions;
        new_evidence = items;
        classification = classified.0;
        repeated_turn = h.repeated;
        result_turn_count = final.turn_count;
      },
      record { state = final; briefing = (responded.1).briefing },
    )

-- what is extracted from a turn, which from one that was said before is nothing
abbrev pub extraction_of : TextRules → Turn → Bool → ConversationState → ExtractionResult
extraction_of rules turn repeated s =
    if repeated then nothing_extracted else extract_business_signals rules turn s

unfoldable pub converse : TextRules → Turn → Heard → Session → ConversationResult × Session
converse rules turn h session =
    converse_on rules turn h (extraction_of rules turn h.repeated session.state) session

abbrev pub with_state :
    Option Briefing → ConversationResult × ConversationState → ConversationResult × Session
with_state briefing (r, s) = (r, record { state = s; briefing = briefing })

-- the branches on the signals
unfoldable pub dispatch_turn : TextRules → Turn → Heard → Session → ConversationResult × Session
dispatch_turn rules turn h session =
    if has_signal opt_out h.signals
    then with_state session.briefing (end_for_opt_out rules h session.state)
    else if has_signal abuse h.signals
    then with_state session.briefing (answer_abuse rules h session.state)
    else if has_signal internal_info h.signals || has_signal prompt_injection h.signals
    then with_state session.briefing (refuse_unsafe rules h session.state)
    else converse rules turn h session

pub data TurnOutcome : Type 0 where
  capacity_reached conversation_closed : TurnOutcome
  answered : ConversationResult → Session → TurnOutcome

abbrev pub answered_with : ConversationResult × Session → TurnOutcome
answered_with (r, session) = answered r session

-- the two refusals of a turn, and else its answer
abbrev pub unless_refused : Bool → Bool → ConversationResult × Session → TurnOutcome
unless_refused true stopped answer = capacity_reached
unless_refused false true answer = conversation_closed
unless_refused false false answer = answered_with answer

unfoldable pub process_turn : TextRules → Bool → Turn → Session → TurnOutcome
process_turn rules detects turn session =
    let s = session.state in
    let heard = hear rules detects turn s in
    unless_refused (leb s.max_turns s.turn_count) s.stopped
      (dispatch_turn rules turn (heard.0) (record session { state = heard.1 }))

-- The session after a turn, which a refusal leaves as it was.
abbrev pub session_after : TurnOutcome → Session → Session
session_after capacity_reached session = session
session_after conversation_closed session = session
session_after (answered result after) session = after

-- the session after turns, in their order
unfoldable pub run_turns : TextRules → Bool → List Turn → Session → Session
run_turns rules detects [] session = session
run_turns rules detects (turn ∷ turns) session =
    run_turns rules detects turns (session_after (process_turn rules detects turn session) session)
