-- ===== src/Conversation/Engine/Invariant.antt =====
-- The validity of a state through a whole turn.
use pitch_bot.Prelude.{
  String, ◌≡◌, refl, sym, ◌∙◌, arith, Bool, true, false, ◌||◌, List, leb, string_eq, Bool-cases,
  inl, inr, if◌then◌else◌,
}
use pitch_bot.Domain.Facts.{RequirementFact, Classification}
use pitch_bot.Conversation.State.{
  ConversationState, ConversationResult, closed, opt_out, abuse, internal_info, prompt_injection,
}
use pitch_bot.Conversation.Classify.{classify, phase_for}
use pitch_bot.Conversation.Checkpoint.{is_closed}
use pitch_bot.Conversation.Checkpoint.Laws.{StateOk}
use pitch_bot.Conversation.Engine.{
  TextRules, Turn, Session, has_signal, extract_business_signals, nothing_extracted,
}
use pitch_bot.Conversation.Engine.Process.{
  Heard, hear, end_for_opt_out, answer_abuse, answer_abuse_after, unless_refused, refuse_unsafe,
  plan_turn, take_facts, take_evidence, fresh_evidence, respond, converse, dispatch_turn,
  TurnOutcome, capacity_reached, conversation_closed, answered, process_turn,
}
use pitch_bot.Conversation.Engine.Parts.{
  RulesOk, hear-StateOk, classify-StateOk, new_dimensions-All, take_facts-StateOk,
  take_evidence-StateOk, extracted-mine,
}

-- a planned reply leaves alone what a checkpoint has
planned-StateOk :
    (is_digest : String → Bool) (rules : TextRules) (turn : Turn) (h : Heard)
    (accepted : List RequirementFact) (s : ConversationState)
    → StateOk is_digest s
    → StateOk is_digest (plan_turn rules turn h accepted s).1
unfolding plan_turn
planned-StateOk is_digest rules turn h accepted s ok = record {
  turns = ok.turns;
  digests = ok.digests;
  hex = ok.hex;
  facts = ok.facts;
  few_evidence = ok.few_evidence;
  own_evidence = ok.own_evidence;
  few_classifications = ok.few_classifications;
  own_classifications = ok.own_classifications;
  closing = ok.closing;
  language = ok.language;
}

-- valid, and talked further about
abbrev Open : (String → Bool) → ConversationState → Type 0
Open is_digest s = StateOk is_digest s × (s.stopped ≡ false)

respond-Open :
    (is_digest : String → Bool) (rules : TextRules) (turn : Turn) (h : Heard)
    (accepted : List RequirementFact) (session : Session)
    → Open is_digest session.state
    → Open is_digest ((respond rules turn h accepted session).1).state
unfolding respond plan_turn
respond-Open is_digest rules turn h accepted session ok =
    elim (Bool-cases (leb session.state.max_goal_changes session.state.goal_change_count)) [
      | inl changed ↦ rw changed ok
      | inr on ↦ rw on (planned-StateOk is_digest rules turn h accepted session.state (ok.0), ok.1)
    ]

not_closed : (c : Classification) → is_closed (phase_for c) ≡ false
unfolding phase_for
not_closed c = ground arith

-- the rating at the end of a turn, and its phase
rate-StateOk :
    (is_digest : String → Bool) (version : String) (s : ConversationState)
    → Open is_digest s
    → StateOk is_digest
        (record (classify version false s).1 { phase = phase_for (classify version false s).0 })
unfolding classify
rate-StateOk is_digest version s ok =
    let rated = classify-StateOk is_digest version false s (ok.0) in
    record {
      turns = rated.turns;
      digests = rated.digests;
      hex = rated.hex;
      facts = rated.facts;
      few_evidence = rated.few_evidence;
      own_evidence = rated.own_evidence;
      few_classifications = rated.few_classifications;
      own_classifications = rated.own_classifications;
      closing = ok.1 ∙ sym (not_closed _);
      language = rated.language;
    }

converse-StateOk :
    (is_digest : String → Bool) (rules : TextRules) (turn : Turn) (h : Heard) (session : Session)
    → RulesOk is_digest rules
    → Open is_digest session.state
    → StateOk is_digest ((converse rules turn h session).1).state
unfolding converse take_facts take_evidence
converse-StateOk is_digest rules turn h session good ok =
    let s = session.state in
    let extraction =
      if h.repeated then nothing_extracted else extract_business_signals rules turn s in
    let mine = extracted-mine is_digest rules turn h.repeated s good in
    let taken = take_facts extraction s in
    let items = fresh_evidence extraction taken.1 in
    let filled =
      take_evidence-StateOk is_digest items taken.1
        (new_dimensions-All _ _ extraction.evidence mine.1)
        (take_facts-StateOk is_digest extraction s mine.0 (ok.0)) in
    rate-StateOk is_digest rules.rule_version _ (
      respond-Open is_digest rules turn h _
        (record { state = take_evidence items taken.1; briefing = session.briefing })
        (filled, ok.1))

-- a state that is closed for good
close-StateOk :
    (is_digest : String → Bool) (s : ConversationState)
    → StateOk is_digest s
    → StateOk is_digest (record s { stopped = true; phase = closed })
close-StateOk is_digest s ok = record {
  turns = ok.turns;
  digests = ok.digests;
  hex = ok.hex;
  facts = ok.facts;
  few_evidence = ok.few_evidence;
  own_evidence = ok.own_evidence;
  few_classifications = ok.few_classifications;
  own_classifications = ok.own_classifications;
  closing = refl;
  language = ok.language;
}

warned-StateOk :
    (is_digest : String → Bool) (s : ConversationState)
    → StateOk is_digest s
    → StateOk is_digest (record s { abuse_redirected = true })
warned-StateOk is_digest s ok = record {
  turns = ok.turns;
  digests = ok.digests;
  hex = ok.hex;
  facts = ok.facts;
  few_evidence = ok.few_evidence;
  own_evidence = ok.own_evidence;
  few_classifications = ok.few_classifications;
  own_classifications = ok.own_classifications;
  closing = ok.closing;
  language = ok.language;
}

abuse_after-StateOk :
    (is_digest : String → Bool) (rules : TextRules) (h : Heard) (again : Bool)
    (s : ConversationState)
    → StateOk is_digest s
    → StateOk is_digest (answer_abuse_after rules h again s).1
abuse_after-StateOk is_digest rules h true s ok =
    classify-StateOk is_digest rules.rule_version false _ (close-StateOk is_digest s ok)
abuse_after-StateOk is_digest rules h false s ok =
    classify-StateOk is_digest rules.rule_version false _ (warned-StateOk is_digest s ok)

abuse-StateOk :
    (is_digest : String → Bool) (rules : TextRules) (h : Heard) (s : ConversationState)
    → StateOk is_digest s
    → StateOk is_digest (answer_abuse rules h s).1
unfolding answer_abuse
abuse-StateOk is_digest rules h s ok = abuse_after-StateOk is_digest rules h s.abuse_redirected s ok

pub dispatch_turn-StateOk :
    (is_digest : String → Bool) (rules : TextRules) (turn : Turn) (h : Heard) (session : Session)
    → RulesOk is_digest rules
    → Open is_digest session.state
    → StateOk is_digest ((dispatch_turn rules turn h session).1).state
unfolding dispatch_turn end_for_opt_out refuse_unsafe
dispatch_turn-StateOk is_digest rules turn h session good ok =
    let s = session.state in
    elim (Bool-cases (has_signal opt_out h.signals)) [
      | inl out ↦
          rw out (
            classify-StateOk is_digest rules.rule_version true _ (close-StateOk is_digest s (ok.0)))
      | inr stays ↦ elim (Bool-cases (has_signal abuse h.signals)) [
        | inl abusive ↦ rw (stays, abusive) (abuse-StateOk is_digest rules h s (ok.0))
        | inr polite ↦
            elim (Bool-cases
              (has_signal internal_info h.signals || has_signal prompt_injection h.signals)) [
                | inl unsafe ↦
                    rw (stays, polite, unsafe)
                      (classify-StateOk is_digest rules.rule_version false s (ok.0))
                | inr safe ↦
                    rw (stays, polite, safe)
                      (converse-StateOk is_digest rules turn h session good ok)
              ]
      ]
    ]

-- the state after an answer is valid
abbrev pub OutcomeOk : (String → Bool) → TurnOutcome → Type 0
OutcomeOk is_digest capacity_reached = Unit
OutcomeOk is_digest conversation_closed = Unit
OutcomeOk is_digest (answered result session) = StateOk is_digest session.state

unless_refused-OutcomeOk :
    (is_digest : String → Bool) (full stopped : Bool) (answer : ConversationResult × Session)
    → (full ≡ false → stopped ≡ false → StateOk is_digest answer.1.state)
    → OutcomeOk is_digest (unless_refused full stopped answer)
unless_refused-OutcomeOk is_digest true stopped answer ok = tt
unless_refused-OutcomeOk is_digest false true answer ok = tt
unless_refused-OutcomeOk is_digest false false answer ok = ok refl refl

pub process_turn-OutcomeOk :
    (is_digest : String → Bool) (rules : TextRules) (detects : Bool) (turn : Turn)
    (session : Session)
    → RulesOk is_digest rules
    → StateOk is_digest session.state
    → OutcomeOk is_digest (process_turn rules detects turn session)
unfolding process_turn hear
process_turn-OutcomeOk is_digest rules detects turn session good ok =
    let s = session.state in
    unless_refused-OutcomeOk is_digest (leb s.max_turns s.turn_count) s.stopped _ (λ room going.
      dispatch_turn-StateOk is_digest rules turn _
        (record session { state = (hear rules detects turn s).1 }) good
        (hear-StateOk is_digest rules detects turn s good (ground (arith, room)) ok, going))
