-- ===== src/Conversation/Journal/Folded.antt =====
-- The events that the turns of a session leave, and what a replay makes of them on the way:
-- src/pitchbot/conversation/journal.py and conversation/engine.py beside it.
use pitch_bot.Prelude.{
  String, ℕ, ◌+◌, ◌≡◌, refl, sym, ap, ◌∙◌, arith, Bool, true, false, Option, none, some, List, [],
  ◌∷◌, ◌++◌, map, leb, All, All-append,
}
use pitch_bot.Conversation.Language.{
  LanguageCode, LanguageReading, LanguageState, resolve_language, detect_turn,
}
use pitch_bot.Conversation.State.{ConversationState, ConversationResult}
use pitch_bot.Conversation.Checkpoint.{checkpoint_of}
use pitch_bot.Conversation.Checkpoint.Laws.{StateOk, CapacitiesOk, exported}
use pitch_bot.Conversation.Engine.{TextRules, Turn, Session}
use pitch_bot.Conversation.Engine.Process.{
  Heard, hear, dispatch_turn, unless_refused, TurnOutcome, capacity_reached, conversation_closed,
  answered, answered_with, process_turn, session_after, run_turns,
}
use pitch_bot.Conversation.Engine.Parts.{RulesOk, hear-StateOk}
use pitch_bot.Conversation.Engine.Invariant.{dispatch_turn-StateOk}
use pitch_bot.Conversation.Engine.Sessions.{settings, dispatch_turn-settings, CapacitiesOk-settings}
use pitch_bot.Conversation.Journal.{
  ConversationTurnEvent, event_with, proposed_event, event_for, fold_events, fold_event, ReplayFold,
  validate_replay_event,
}
use pitch_bot.Conversation.Journal.Recorded.{Recorded, dispatch_turn-Recorded}
use pitch_bot.Conversation.Journal.Step.{
  heard_in, fold_of, Config, PreviousOk, event_from_state_lem, Config_lem, Agrees_lem,
  fold_event_lem, validate_lem,
}

-- the language that a turn is answered in is the one that the state keeps
detect_turn-spoken :
    (detects : Bool) (reading : LanguageReading) (s : LanguageState)
    → ((detect_turn detects reading s).1).language ≡ (detect_turn detects reading s).0.0
unfolding detect_turn
detect_turn-spoken true reading s = refl
detect_turn-spoken false reading s = refl

resolve_language-spoken :
    (detects : Bool) (declared : LanguageCode) (reading : LanguageReading) (s : LanguageState)
    → ((resolve_language detects declared reading s).1).language
      ≡ (resolve_language detects declared reading s).0.0
unfolding resolve_language
resolve_language-spoken detects declared reading s =
    let seeded = record s { declared_language = declared; language = declared } in
    let a = detect_turn-spoken detects reading s in
    let b = detect_turn-spoken detects reading seeded in ground arith

-- the session and the events after one operation, when the event of an answer is stored
abbrev pub keep_event :
    Session → Session → Option ConversationTurnEvent → List ConversationTurnEvent × Session
keep_event before after none = ([], before)
keep_event before after (some e) = (e ∷ [], after)

abbrev pub journaled :
    (String → Bool) → ℕ → ℕ → String → Session → TurnOutcome → List ConversationTurnEvent × Session
journaled is_digest session_id operation_id fingerprint before capacity_reached = ([], before)
journaled is_digest session_id operation_id fingerprint before conversation_closed = ([], before)
journaled is_digest session_id operation_id fingerprint before (answered r after) =
    keep_event before after
      (proposed_event is_digest session_id operation_id fingerprint r after.state)

-- a session's turns with their operation identifiers, and the events that they leave
unfoldable pub journal_turns :
    (String → Bool)
    → TextRules
    → Bool
    → (Turn → String)
    → ℕ
    → List (ℕ × Turn)
    → Session
    → List ConversationTurnEvent × Session
journal_turns is_digest rules detects fingerprint session_id [] session = ([], session)
journal_turns is_digest rules detects fingerprint session_id ((operation_id, turn) ∷ turns)
      session =
    let step =
      journaled is_digest session_id operation_id (fingerprint turn) session
        (process_turn rules detects turn session) in
    let rest = journal_turns is_digest rules detects fingerprint session_id turns step.1 in
    (step.0 ++ rest.0, rest.1)

-- what a replay relies on, of a state and what was created
pub record Ready (is_digest : String → Bool) (created s : ConversationState) : Type 0 where
  pub ok : StateOk is_digest s
  pub fits : CapacitiesOk is_digest s
  pub same : settings s ≡ settings created

-- where a replay is after one operation
record Stepped (is_digest : String → Bool) (created : ConversationState) (before : Session)
    (first : ConversationTurnEvent) (p : Option ConversationTurnEvent) (next : Session)
    (step : List ConversationTurnEvent × Session) : Type 0 where
  kept : step.1 ≡ next
  q : Option ConversationTurnEvent
  previous : PreviousOk q step.1.state
  ready : Ready is_digest created step.1.state
  configs : All (λ e. Config e created) step.0
  folds :
      (later : List ConversationTurnEvent)
      → fold_events created.lead_id
          (before.state.turn_count + 1)
          first
          (fold_of before.state p)
          (step.0 ++ later)
        ≡ fold_events created.lead_id
            (step.1.state.turn_count + 1)
            first
            (fold_of step.1.state q)
            later

idle :
    (is_digest : String → Bool) (created : ConversationState) (before : Session)
    (first : ConversationTurnEvent) (p : Option ConversationTurnEvent)
    → Ready is_digest created before.state
    → PreviousOk p before.state
    → Stepped is_digest created before first p before ([], before)
idle is_digest created before first p ready previous = record {
  kept = refl;
  q = p;
  previous = previous;
  ready = ready;
  configs = tt;
  folds = λ later. refl;
}

pub Config-settings :
    (e : ConversationTurnEvent) (s t : ConversationState)
    → settings s ≡ settings t
    → Config e s
    → Config e t
Config-settings e s t same c = record {
  turns = c.turns ∙ ap (λ x. x.1) same;
  facts = c.facts ∙ ap (λ x. x.2) same;
  evidence = c.evidence ∙ ap (λ x. x.3) same;
  classifications = c.classifications ∙ ap (λ x. x.4) same;
  goals = c.goals ∙ ap (λ x. x.5) same;
  key = c.key ∙ ap (λ x. x.6) same;
}

fold_one :
    (lead n m : ℕ) (first e : ConversationTurnEvent) (f g : ReplayFold)
    (later : List ConversationTurnEvent)
    → validate_replay_event lead n first f.previous e ≡ true
    → fold_event first e f ≡ g
    → m ≡ n
    → fold_events lead n first f (e ∷ later) ≡ fold_events lead (m + 1) first g later
unfolding fold_events
fold_one lead n m first e f g later valid folded same = rw valid (
    ap (λ x. fold_events lead (n + 1) first x later) folded
    ∙ ap (λ k. fold_events lead (k + 1) first g later) (sym same))

-- one answered turn
answered-Stepped :
    (is_digest : String → Bool) (session_id operation_id : ℕ) (fingerprint d : String) (h : Heard)
    (l : LanguageState) (created : ConversationState) (before after : Session)
    (r : ConversationResult) (first : ConversationTurnEvent) (p : Option ConversationTurnEvent)
    → Config first created
    → Ready is_digest created before.state
    → PreviousOk p before.state
    → before.state.stopped ≡ false
    → Recorded h (heard_in d l before.state) r after.state
    → l.language ≡ h.spoken
    → settings after.state ≡ settings before.state
    → StateOk is_digest after.state
    → is_digest fingerprint ≡ true
    → is_digest d ≡ true
    → Stepped is_digest created before first p after
        (journaled is_digest session_id operation_id fingerprint before (answered r after))
unfolding proposed_event
answered-Stepped is_digest session_id operation_id fingerprint d h l created before after r first p
      config ready previous going kept spoken same ok print hex =
    let s = before.state in
    let t = after.state in
    let first_config = Config-settings first created s (sym ready.same) config in
    let fits = CapacitiesOk-settings is_digest t s same ready.fits in
    let proposed =
      ap (event_for is_digest session_id operation_id fingerprint r) (exported is_digest t ok fits)
      ∙ event_from_state_lem is_digest session_id operation_id fingerprint d h l s t r kept spoken
          same ok fits print hex in
    let e = event_with session_id operation_id fingerprint (checkpoint_of t) r d in
    let valid =
      validate_lem is_digest session_id operation_id fingerprint d h l s t r kept spoken same ok
        fits print hex first p first_config going previous in
    let lead : s.lead_id ≡ created.lead_id = ap (λ c. c.0) ready.same in
    rw proposed (record {
      kept = refl;
      q = some e;
      previous =
          Agrees_lem is_digest session_id operation_id fingerprint d h l s t r kept spoken same ok
            fits print hex;
      ready = record { ok = ok; fits = fits; same = same ∙ ready.same };
      configs = (
        Config-settings e s created ready.same (
            Config_lem is_digest session_id operation_id fingerprint d h l s t r kept spoken same ok
              fits print hex),
        tt,
      );
      folds = λ later.
          fold_one created.lead_id (s.turn_count + 1) t.turn_count first e (fold_of s p)
            (fold_of t (some e)) later
            (ap (λ k. validate_replay_event k (s.turn_count + 1) first p e) (sym lead) ∙ valid)
            (fold_event_lem is_digest session_id operation_id fingerprint d h l s t r kept spoken
              same ok fits print hex first p first_config)
            kept.turns;
    })

unless_refused-Stepped :
    (is_digest : String → Bool) (session_id operation_id : ℕ) (fingerprint : String)
    (created : ConversationState) (before : Session) (first : ConversationTurnEvent)
    (p : Option ConversationTurnEvent) (full stopped : Bool) (answer : ConversationResult × Session)
    → Ready is_digest created before.state
    → PreviousOk p before.state
    → (full ≡ false
        → stopped ≡ false
        → Stepped is_digest created before first p
            (session_after (answered_with answer) before)
            (journaled is_digest session_id operation_id fingerprint before (answered_with answer)))
    → Stepped is_digest created before first p
        (session_after (unless_refused full stopped answer) before)
        (journaled is_digest session_id operation_id fingerprint before
          (unless_refused full stopped answer))
unless_refused-Stepped is_digest session_id operation_id fingerprint created before first p true
      stopped answer ready previous step =
    idle is_digest created before first p ready previous
unless_refused-Stepped is_digest session_id operation_id fingerprint created before first p false
      true answer ready previous step =
    idle is_digest created before first p ready previous
unless_refused-Stepped is_digest session_id operation_id fingerprint created before first p false
      false answer ready previous step =
    step refl refl

process_turn-Stepped :
    (is_digest : String → Bool) (rules : TextRules) (detects : Bool) (session_id operation_id : ℕ)
    (fingerprint : String) (turn : Turn) (created : ConversationState) (before : Session)
    (first : ConversationTurnEvent) (p : Option ConversationTurnEvent)
    → RulesOk is_digest rules
    → is_digest fingerprint ≡ true
    → Config first created
    → Ready is_digest created before.state
    → PreviousOk p before.state
    → Stepped is_digest created before first p
        (session_after (process_turn rules detects turn before) before)
        (journaled is_digest session_id operation_id fingerprint before
          (process_turn rules detects turn before))
unfolding process_turn hear
process_turn-Stepped is_digest rules detects session_id operation_id fingerprint turn created before
      first p good print config ready previous =
    let s = before.state in
    let h = (hear rules detects turn s).0 in
    let going = record before { state = (hear rules detects turn s).1 } in
    let reading = rules.detect_language turn.turn_text turn.transcribed_as in
    let l = (resolve_language detects turn.declared reading s.language_state).1 in
    let answer = dispatch_turn rules turn h going in
    unless_refused-Stepped is_digest session_id operation_id fingerprint created before first p
      (leb s.max_turns s.turn_count) s.stopped answer ready previous
      (λ room open_.
        let heard =
          hear-StateOk is_digest rules detects turn s good (ground (arith, room)) ready.ok in
        answered-Stepped is_digest session_id operation_id fingerprint (rules.digest turn.turn_text)
          h l created before answer.1 answer.0 first p config ready previous open_
          (dispatch_turn-Recorded is_digest rules turn h going good open_ heard)
          (resolve_language-spoken detects turn.declared reading s.language_state)
          (dispatch_turn-settings rules turn h going)
          (dispatch_turn-StateOk is_digest rules turn h going good (heard, open_)) print
          (good.hex turn.turn_text))

-- where a replay is at the end
pub record Folded (is_digest : String → Bool) (created : ConversationState) (before : Session)
    (first : ConversationTurnEvent) (p : Option ConversationTurnEvent) (next : Session)
    (all : List ConversationTurnEvent × Session) : Type 0 where
  pub kept : all.1 ≡ next
  pub q : Option ConversationTurnEvent
  pub previous : PreviousOk q all.1.state
  pub ready : Ready is_digest created all.1.state
  pub configs : All (λ e. Config e created) all.0
  pub folds :
      fold_events created.lead_id (before.state.turn_count + 1) first (fold_of before.state p) all.0
      ≡ some (fold_of all.1.state q)

pub journal_turns-Folded :
    (is_digest : String → Bool) (rules : TextRules) (detects : Bool) (fingerprint : Turn → String)
    (session_id : ℕ) (turns : List (ℕ × Turn)) (created : ConversationState) (before : Session)
    (first : ConversationTurnEvent) (p : Option ConversationTurnEvent)
    → RulesOk is_digest rules
    → ((turn : Turn) → is_digest (fingerprint turn) ≡ true)
    → Config first created
    → Ready is_digest created before.state
    → PreviousOk p before.state
    → Folded is_digest created before first p
        (run_turns rules detects (map (λ t. t.1) turns) before)
        (journal_turns is_digest rules detects fingerprint session_id turns before)
unfolding journal_turns fold_events run_turns
journal_turns-Folded is_digest rules detects fingerprint session_id [] created before first p good
      print config ready previous =
    record { kept = refl; q = p; previous = previous; ready = ready; configs = tt; folds = refl }
journal_turns-Folded is_digest rules detects fingerprint session_id ((operation_id, turn) ∷ turns)
      created before first p good print config ready previous =
    let outcome = process_turn rules detects turn before in
    let step = journaled is_digest session_id operation_id (fingerprint turn) before outcome in
    let a =
      process_turn-Stepped is_digest rules detects session_id operation_id (fingerprint turn) turn
        created before first p good (print turn) config ready previous in
    let b =
      journal_turns-Folded is_digest rules detects fingerprint session_id turns created step.1 first
        a.q good print config a.ready a.previous in
    record {
      kept = b.kept ∙ ap (run_turns rules detects (map (λ t. t.1) turns)) a.kept;
      q = b.q;
      previous = b.previous;
      ready = b.ready;
      configs = All-append _ step.0 _ a.configs b.configs;
      folds = a.folds _ ∙ b.folds;
    }
