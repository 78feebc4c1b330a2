-- ===== src/Conversation/Engine/Safety.antt =====
-- What closes a conversation, and what a model's reading can change in one.
use pitch_bot.Prelude.{◌≡◌, ◌∙◌, ap, refl, arith, Bool, true, false, Option, List, [], ◌∷◌, leb}
use pitch_bot.Actions.Policy.{cold}
use pitch_bot.Deliberation.Briefing.{Briefing}
use pitch_bot.Conversation.State.{
  ConversationState, stop, redirect, closed, FixedReply, fixed, opt_out_reply, abuse_redirect,
  abuse_stop, ConversationResult, opt_out, abuse,
}
use pitch_bot.Conversation.Classify.{classify, classification_of, temperature_of}
use pitch_bot.Conversation.Planning.{table_of}
use pitch_bot.Conversation.Engine.{TextRules, Turn, Session, has_signal}
use pitch_bot.Conversation.Engine.Process.{
  Heard, hear, with_state, end_for_opt_out, answer_abuse, answer_abuse_after, dispatch_turn,
  unless_refused, TurnOutcome, answered, process_turn, session_after, run_turns, answered_with,
}

-- a turn that gets no answer
abbrev is_refused : TurnOutcome → Bool
is_refused (answered result session) = false
is_refused _ = true

-- the conversation is over: no turn is answered any more, and none changes the session
abbrev Over : TextRules → Bool → Session → Type 0
Over rules detects session =
    (turns : List Turn) (turn : Turn)
    → (run_turns rules detects turns session ≡ session)
      × (is_refused (process_turn rules detects turn session) ≡ true)

refused_stopped :
    (full stopped : Bool) (answer : ConversationResult × Session) (session : Session)
    → stopped ≡ true
    → (session_after (unless_refused full stopped answer) session ≡ session)
      × (is_refused (unless_refused full stopped answer) ≡ true)
refused_stopped true stopped answer session h = (refl, refl)
refused_stopped false true answer session h = (refl, refl)
refused_stopped false false answer session h = absurd (ground (arith, h))

stopped_turn :
    (rules : TextRules) (detects : Bool) (turn : Turn) (session : Session)
    → session.state.stopped ≡ true
    → (session_after (process_turn rules detects turn session) session ≡ session)
      × (is_refused (process_turn rules detects turn session) ≡ true)
unfolding process_turn
stopped_turn rules detects turn session h =
    refused_stopped (leb session.state.max_turns session.state.turn_count) session.state.stopped _
      session h

stopped_turns :
    (rules : TextRules) (detects : Bool) (turns : List Turn) (session : Session)
    → session.state.stopped ≡ true
    → run_turns rules detects turns session ≡ session
unfolding run_turns
stopped_turns rules detects [] session h = refl
stopped_turns rules detects (turn ∷ turns) session h =
    ap (run_turns rules detects turns) ((stopped_turn rules detects turn session h).0)
    ∙ stopped_turns rules detects turns session h

stopped-Over :
    (rules : TextRules) (detects : Bool) (session : Session)
    → session.state.stopped ≡ true
    → Over rules detects session
stopped-Over rules detects session h turns turn =
    (stopped_turns rules detects turns session h, (stopped_turn rules detects turn session h).1)

-- a turn that the conversation still answers
abbrev Answering : Session → Type 0
Answering session =
    (leb session.state.max_turns session.state.turn_count ≡ false) × (session.state.stopped ≡ false)

-- the turn is answered with this reply, and the conversation is over
abbrev pub Ends : TextRules → Bool → FixedReply → TurnOutcome → Type 0
Ends rules detects key (answered result after) =
    (result.reply ≡ fixed (table_of result.language) key)
    × (result.disposition ≡ stop)
    × (result.result_phase ≡ closed)
    × Over rules detects after
Ends rules detects key _ = ⊥

-- the turn is answered with a warning, and the next one of its kind will not be
abbrev Warned : TurnOutcome → Type 0
Warned (answered result after) =
    (result.reply ≡ fixed (table_of result.language) abuse_redirect)
    × (result.disposition ≡ redirect)
    × (after.state.abuse_redirected ≡ true)
    × (after.state.stopped ≡ false)
Warned _ = ⊥

-- the lead is rated cold, at no score
abbrev pub RatedCold : TurnOutcome → Type 0
RatedCold (answered result after) =
    (result.classification.temperature ≡ cold) × (result.classification.score ≡ 0)
RatedCold _ = ⊥

answered_lem :
    (P : TurnOutcome → Type 0) (full stopped : Bool) (answer : ConversationResult × Session)
    → full ≡ false
    → stopped ≡ false
    → P (answered_with answer)
    → P (unless_refused full stopped answer)
answered_lem P true stopped answer room going p = absurd (ground (arith, room))
answered_lem P false true answer room going p = absurd (ground (arith, going))
answered_lem P false false answer room going p = p

-- While a conversation answers, a turn that opts out is answered with the opt-out reply, rates the
-- lead cold at score 0, and closes the conversation: no later turn is answered or changes the session.
pub opt_out_closes :
    (rules : TextRules) (detects : Bool) (turn : Turn) (session : Session)
    → Answering session
    → has_signal opt_out (rules.detect_safety_signals turn.turn_text) ≡ true
    → (let outcome = process_turn rules detects turn session in
        Ends rules detects opt_out_reply outcome × RatedCold outcome)
unfolding process_turn hear dispatch_turn end_for_opt_out classify classification_of temperature_of
opt_out_closes rules detects turn session going out =
    answered_lem (λ outcome. Ends rules detects opt_out_reply outcome × RatedCold outcome)
      (leb session.state.max_turns session.state.turn_count) session.state.stopped _ (going.0)
      (going.1) (rw out ((refl, refl, refl, stopped-Over rules detects _ refl), (refl, refl)))

-- the answer to abuse, by whether a warning was given
abbrev pub Strike : TextRules → Bool → Bool → TurnOutcome → Type 0
Strike rules detects true outcome = Ends rules detects abuse_stop outcome
Strike rules detects false outcome = Warned outcome

strike_lem :
    (rules : TextRules) (detects : Bool) (h : Heard) (again : Bool) (s : ConversationState)
    (briefing : Option Briefing)
    → s.stopped ≡ false
    → Strike rules detects again
        (answered_with (with_state briefing (answer_abuse_after rules h again s)))
unfolding classify
strike_lem rules detects h true s briefing going =
    (refl, refl, refl, stopped-Over rules detects _ refl)
strike_lem rules detects h false s briefing going = (refl, refl, refl, going)

-- While a conversation answers, an abusive turn that does not opt out is answered with a warning the
-- first time; once a warning was given, it is answered with a stop and closes the conversation: no
-- later turn is answered or changes the session.
pub abuse_strikes :
    (rules : TextRules) (detects : Bool) (turn : Turn) (session : Session)
    → Answering session
    → has_signal opt_out (rules.detect_safety_signals turn.turn_text) ≡ false
    → has_signal abuse (rules.detect_safety_signals turn.turn_text) ≡ true
    → Strike rules detects session.state.abuse_redirected (process_turn rules detects turn session)
unfolding process_turn hear dispatch_turn answer_abuse
abuse_strikes rules detects turn session going stays abusive =
    let s = session.state in
    answered_lem (Strike rules detects s.abuse_redirected) (leb s.max_turns s.turn_count) s.stopped
      _ (going.0) (going.1)
      (rw (stays, abusive)
        (strike_lem rules detects _ s.abuse_redirected _ session.briefing (going.1)))
