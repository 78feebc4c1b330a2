-- ===== src/Conversation/Engine/Sessions.antt =====
-- A session of any turns, and its checkpoint.
use pitch_bot.Prelude.{
  String, ℕ, ◌≡◌, refl, arith, Bool, true, false, ◌||◌, ◌∙◌, sym, ap, none, some, List, [], ◌∷◌,
  leb, nat_eq, string_eq, Dict, get, put, Bool-cases, inl, inr,
}
use pitch_bot.Conversation.Language.Laws.{new_state-Inv}
use pitch_bot.Conversation.State.{
  ConversationState, new_conversation, ConversationResult, opt_out, abuse, internal_info,
  prompt_injection,
}
use pitch_bot.Conversation.Classify.{classify}
use pitch_bot.Conversation.Checkpoint.{
  in_range, checkpoint_of, export_checkpoint, restore_checkpoint, restored,
}
use pitch_bot.Conversation.Checkpoint.Laws.{
  StateOk, CapacitiesOk, without_transients, checkpoint_roundtrip,
}
use pitch_bot.Conversation.Engine.{TextRules, Turn, Session, has_signal}
use pitch_bot.Conversation.Engine.Process.{
  Heard, hear, end_for_opt_out, answer_abuse, answer_abuse_after, refuse_unsafe, plan_turn,
  take_facts, take_evidence, respond, converse, dispatch_turn, unless_refused, TurnOutcome,
  capacity_reached, conversation_closed, answered, process_turn, session_after, run_turns,
}
use pitch_bot.Domain.Facts.{RequirementFact}
use pitch_bot.Conversation.Engine.Parts.{RulesOk}
use pitch_bot.Conversation.Engine.Invariant.{OutcomeOk, process_turn-OutcomeOk}

-- what a conversation is created with
abbrev pub settings : ConversationState → ℕ × ℕ × ℕ × ℕ × ℕ × ℕ × String
settings s = (
  s.lead_id, s.max_turns, s.max_facts, s.max_evidence, s.max_classifications, s.max_goal_changes,
  s.digest_key_id,
)

abuse_after-settings :
    (rules : TextRules) (h : Heard) (again : Bool) (s : ConversationState)
    → settings (answer_abuse_after rules h again s).1 ≡ settings s
unfolding classify
abuse_after-settings rules h true s = refl
abuse_after-settings rules h false s = refl

respond-settings :
    (rules : TextRules) (turn : Turn) (h : Heard) (accepted : List RequirementFact)
    (session : Session)
    → settings ((respond rules turn h accepted session).1).state ≡ settings session.state
unfolding respond plan_turn
respond-settings rules turn h accepted session =
    elim (Bool-cases (leb session.state.max_goal_changes session.state.goal_change_count)) [
      | inl changed ↦ rw changed refl
      | inr on ↦ rw on refl
    ]

converse-settings :
    (rules : TextRules) (turn : Turn) (h : Heard) (session : Session)
    → settings ((converse rules turn h session).1).state ≡ settings session.state
unfolding converse classify take_facts take_evidence
converse-settings rules turn h session = respond-settings rules turn h _ _

pub dispatch_turn-settings :
    (rules : TextRules) (turn : Turn) (h : Heard) (session : Session)
    → settings ((dispatch_turn rules turn h session).1).state ≡ settings session.state
unfolding dispatch_turn end_for_opt_out refuse_unsafe answer_abuse classify
dispatch_turn-settings rules turn h session = elim (Bool-cases (has_signal opt_out h.signals)) [
  | inl out ↦ rw out refl
  | inr stays ↦ elim (Bool-cases (has_signal abuse h.signals)) [
    | inl abusive ↦
        rw (stays, abusive)
          (abuse_after-settings rules h session.state.abuse_redirected session.state)
    | inr polite ↦
        elim (Bool-cases
          (has_signal internal_info h.signals || has_signal prompt_injection h.signals)) [
            | inl unsafe ↦ rw (stays, polite, unsafe) refl
            | inr safe ↦ rw (stays, polite, safe) (converse-settings rules turn h session)
          ]
  ]
]

unless_refused-settings :
    (full stopped : Bool) (answer : ConversationResult × Session) (session : Session)
    → settings answer.1.state ≡ settings session.state
    → settings (session_after (unless_refused full stopped answer) session).state
      ≡ settings session.state
unless_refused-settings true stopped answer session e = refl
unless_refused-settings false true answer session e = refl
unless_refused-settings false false answer session e = e

process_turn-settings :
    (rules : TextRules) (detects : Bool) (turn : Turn) (session : Session)
    → settings (session_after (process_turn rules detects turn session) session).state
      ≡ settings session.state
unfolding process_turn hear
process_turn-settings rules detects turn session =
    unless_refused-settings _ _ _ session (dispatch_turn-settings rules turn _ _)

pub session_after-StateOk :
    (is_digest : String → Bool) (outcome : TurnOutcome) (session : Session)
    → OutcomeOk is_digest outcome
    → StateOk is_digest session.state
    → StateOk is_digest (session_after outcome session).state
session_after-StateOk is_digest capacity_reached session o ok = ok
session_after-StateOk is_digest conversation_closed session o ok = ok
session_after-StateOk is_digest (answered result after) session o ok = o

-- a conversation that can be checkpointed, with the capacities it was created with
abbrev Durable : (String → Bool) → ℕ × ℕ × ℕ × ℕ × ℕ × ℕ × String → ConversationState → Type 0
Durable is_digest created s = StateOk is_digest s × (settings s ≡ created)

run_turns-Durable :
    (is_digest : String → Bool) (rules : TextRules) (detects : Bool) (turns : List Turn)
    (session : Session) (created : ℕ × ℕ × ℕ × ℕ × ℕ × ℕ × String)
    → RulesOk is_digest rules
    → Durable is_digest created session.state
    → Durable is_digest created (run_turns rules detects turns session).state
unfolding run_turns
run_turns-Durable is_digest rules detects [] session created good ok = ok
run_turns-Durable is_digest rules detects (turn ∷ turns) session created good ok =
    run_turns-Durable is_digest rules detects turns _ created good (
      session_after-StateOk is_digest (process_turn rules detects turn session) session
          (process_turn-OutcomeOk is_digest rules detects turn session good (ok.0)) (ok.0),
      process_turn-settings rules detects turn session ∙ ok.1,
    )

pub new_conversation-StateOk :
    (is_digest : String → Bool) (lead turns facts evidence classifications changes : ℕ)
    (key : String)
    → StateOk is_digest (new_conversation lead turns facts evidence classifications changes key)
unfolding new_conversation
new_conversation-StateOk is_digest lead turns facts evidence classifications changes key = record {
  turns = omega arith;
  digests = omega arith;
  hex = tt;
  facts = record { few = omega arith; distinct = tt; keyed = tt };
  few_evidence = omega arith;
  own_evidence = tt;
  few_classifications = omega arith;
  own_classifications = tt;
  closing = refl;
  language = new_state-Inv;
}

-- the capacities that a checkpoint can have, of what a conversation is created with
abbrev Fits : (String → Bool) → ℕ × ℕ × ℕ × ℕ × ℕ × ℕ × String → Type 0
Fits is_digest c =
    (in_range c.1 ≡ true)
    × (in_range c.2 ≡ true)
    × (in_range c.3 ≡ true)
    × (in_range c.4 ≡ true)
    × (in_range c.5 ≡ true)
    × (is_digest c.6 ≡ true)

pub CapacitiesOk-settings :
    (is_digest : String → Bool) (s t : ConversationState)
    → settings s ≡ settings t
    → CapacitiesOk is_digest t
    → CapacitiesOk is_digest s
CapacitiesOk-settings is_digest s t same ok = coe 1 0 (i. Fits is_digest (same i)) ok

-- Take a conversation created with capacities between 1 and 10,000 and a digest key that is a digest,
-- and rules whose digests are digests and whose evidence belongs to the lead. After any turns it
-- exports a checkpoint, and an engine with the same digest key that has no such session restores from
-- it the state as it was, but for the counts of questions and closings and the slots of a model's
-- reading.
pub session_survives_restart :
    (is_digest : String → Bool) (rules : TextRules) (detects : Bool) (turns : List Turn)
    (lead max_turns max_facts max_evidence max_classifications max_goal_changes : ℕ) (key : String)
    (session_id : ℕ) (states : Dict ℕ ConversationState)
    → RulesOk is_digest rules
    → CapacitiesOk is_digest (
        new_conversation lead max_turns max_facts max_evidence max_classifications max_goal_changes
          key)
    → get session_id states ≡ none
    → (let created =
          new_conversation lead max_turns max_facts max_evidence max_classifications
            max_goal_changes key in
        let s =
          (run_turns rules detects turns (record { state = created; briefing = none })).state in
        (export_checkpoint is_digest s ≡ some (checkpoint_of s))
        × (restore_checkpoint key session_id (checkpoint_of s) states
            ≡ restored (put session_id (without_transients s) states)))
unfolding new_conversation
session_survives_restart is_digest rules detects turns lead max_turns max_facts max_evidence
      max_classifications max_goal_changes key session_id states good fits absent =
    let created =
      new_conversation lead max_turns max_facts max_evidence max_classifications max_goal_changes
        key in
    let s = (run_turns rules detects turns (record { state = created; briefing = none })).state in
    let kept = run_turns-Durable is_digest rules detects turns _ (settings created) good (
      new_conversation-StateOk is_digest lead max_turns max_facts max_evidence max_classifications
          max_goal_changes key,
      refl,
    ) in
    let trip =
      checkpoint_roundtrip is_digest s session_id states kept.0
        (CapacitiesOk-settings is_digest s created kept.1 fits) absent in
    let key_kept = ap (λ c. c.6) kept.1 in
    (
      trip.0,
      ap (λ k. restore_checkpoint k session_id (checkpoint_of s) states) (sym key_kept) ∙ trip.1,
    )
