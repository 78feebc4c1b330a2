-- ===== src/Conversation/Engine/Table/Isolation.antt =====
-- Several sessions of one engine, and what a call for one of them touches.
use pitch_bot.Prelude.{
  ℕ, ◌≡◌, ◌∙◌, sym, refl, Bool, false, Option, none, some, is_none, List, [], ◌∷◌, Dict, get, put,
  remove, get-put, get-remove, nat_eq, ◌==◌, Bool-cases, inl, inr, All,
}
use pitch_bot.Deliberation.Briefing.{Briefing, Deliberation}
use pitch_bot.Conversation.State.{ConversationState}
use pitch_bot.Conversation.Checkpoint.{
  ConversationStateCheckpoint, restore_checkpoint, replace_checkpoint, store_restored,
}
use pitch_bot.Conversation.Engine.{TextRules, Turn}
use pitch_bot.Conversation.Engine.Process.{
  TurnOutcome, capacity_reached, conversation_closed, answered, process_turn,
}
use pitch_bot.Conversation.Engine.Table.{
  ConversationEngine, create_session, put_briefing, store_outcome, take_turn, process_session_turn,
  store_states, restore_session, replace_session, close_session, session_briefing, conclude_session,
}

-- a call of the engine, for one session
pub data EngineCall : Type 0 where
  create : ℕ → EngineCall
  say : Turn → EngineCall
  restore_from replace_from : ConversationStateCheckpoint → EngineCall
  close_it read_briefing : EngineCall
  conclude_it : Deliberation → EngineCall

-- the engine after a call, which an error leaves as it was
abbrev pub kept {ℓ} : {A : Type ℓ} → Option A → A → A
kept none e = e
kept (some x) e = x

abbrev pub turned :
    Option (TurnOutcome × ConversationEngine) → ConversationEngine → ConversationEngine
turned none e = e
turned (some (outcome, after)) e = after

abbrev pub call : (ℕ → TextRules) → ℕ × EngineCall → ConversationEngine → ConversationEngine
call rules (id, create lead) e = kept (create_session id lead e) e
call rules (id, say turn) e = turned (process_session_turn rules id turn e) e
call rules (id, restore_from c) e = kept (restore_session id c e) e
call rules (id, replace_from c) e = kept (replace_session id c e) e
call rules (id, close_it) e = close_session id e
call rules (id, read_briefing) e = (session_briefing id e).1
call rules (id, conclude_it d) e = conclude_session id d e

unfoldable pub call_all :
    (ℕ → TextRules) → List (ℕ × EngineCall) → ConversationEngine → ConversationEngine
call_all rules [] e = e
call_all rules (c ∷ calls) e = call_all rules calls (call rules c e)

-- a session has the same state and the same briefing in both
abbrev pub SameSession : ℕ → ConversationEngine → ConversationEngine → Type 0
SameSession other e f =
    (get other e.states ≡ get other f.states)
    × (get other e.briefings ≡ get other f.briefings)
    × (e.detect_language_switch ≡ f.detect_language_switch)

put-other {ℓ} :
    {V : Type ℓ} (id other : ℕ) (v : V) (d : Dict ℕ V)
    → (id == other) ≡ false
    → get other (put id v d) ≡ get other d
put-other id other v d apart = get-put id other v d ∙ rw apart refl

remove-other {ℓ} :
    {V : Type ℓ} (id other : ℕ) (d : Dict ℕ V)
    → (id == other) ≡ false
    → get other (remove id d) ≡ get other d
remove-other id other d apart = get-remove id other d ∙ rw apart refl

store_outcome-other :
    (id other : ℕ) (outcome : TurnOutcome) (e : ConversationEngine)
    → (id == other) ≡ false
    → SameSession other (store_outcome id outcome e) e
store_outcome-other id other capacity_reached e apart = (refl, refl, refl)
store_outcome-other id other conversation_closed e apart = (refl, refl, refl)
store_outcome-other id other (answered result session) e apart =
    (put-other id other session.state e.states apart, briefing_lem session.briefing, refl)
  where
    briefing_lem :
        (b : Option Briefing) → get other (put_briefing id b e.briefings) ≡ get other e.briefings
    briefing_lem none = refl
    briefing_lem (some b) = put-other id other b e.briefings apart

turn-other :
    (rules : TextRules) (id other : ℕ) (turn : Turn) (s : Option ConversationState)
    (e : ConversationEngine)
    → (id == other) ≡ false
    → SameSession other (turned (take_turn rules id turn s e) e) e
turn-other rules id other turn none e apart = (refl, refl, refl)
turn-other rules id other turn (some s) e apart = store_outcome-other id other _ e apart

stored-other :
    (id other : ℕ) (s : Option ConversationState) (e : ConversationEngine)
    → (id == other) ≡ false
    → SameSession other (kept (store_states (store_restored id e.states s) e) e) e
stored-other id other none e apart = (refl, refl, refl)
stored-other id other (some s) e apart = (put-other id other s e.states apart, refl, refl)

restore-other :
    (id other : ℕ) (c : ConversationStateCheckpoint) (e : ConversationEngine)
    → (id == other) ≡ false
    → SameSession other (kept (restore_session id c e) e) e
unfolding restore_session restore_checkpoint
restore-other id other c e apart = elim (Bool-cases (is_none (get id e.states))) [
  | inl new ↦ rw new (stored-other id other _ e apart)
  | inr old ↦ rw old (refl, refl, refl)
]

replace-other :
    (id other : ℕ) (c : ConversationStateCheckpoint) (e : ConversationEngine)
    → (id == other) ≡ false
    → SameSession other (kept (replace_session id c e) e) e
unfolding replace_session replace_checkpoint
replace-other id other c e apart = elim (Bool-cases (is_none (get id e.states))) [
  | inl new ↦ rw new (refl, refl, refl)
  | inr old ↦ rw old (stored-other id other _ e apart)
]

create-other :
    (id other lead : ℕ) (e : ConversationEngine)
    → (id == other) ≡ false
    → SameSession other (kept (create_session id lead e) e) e
unfolding create_session
create-other id other lead e apart = elim (Bool-cases (is_none (get id e.states))) [
  | inl new ↦ rw new (put-other id other _ e.states apart, refl, refl)
  | inr old ↦ rw old (refl, refl, refl)
]

call-other :
    (rules : ℕ → TextRules) (other id : ℕ) (c : EngineCall) (e : ConversationEngine)
    → (id == other) ≡ false
    → SameSession other (call rules (id, c) e) e
unfolding process_session_turn close_session session_briefing conclude_session
call-other rules other id (create lead) e apart = create-other id other lead e apart
call-other rules other id (say turn) e apart = turn-other (rules id) id other turn _ e apart
call-other rules other id (restore_from c) e apart = restore-other id other c e apart
call-other rules other id (replace_from c) e apart = replace-other id other c e apart
call-other rules other id close_it e apart =
    (remove-other id other e.states apart, remove-other id other e.briefings apart, refl)
call-other rules other id read_briefing e apart =
    (refl, put-other id other _ e.briefings apart, refl)
call-other rules other id (conclude_it d) e apart =
    (refl, put-other id other _ _ apart ∙ put-other id other _ e.briefings apart, refl)

call_all-other :
    (rules : ℕ → TextRules) (other : ℕ) (calls : List (ℕ × EngineCall)) (e : ConversationEngine)
    → All (λ c. (c.0 == other) ≡ false) calls
    → SameSession other (call_all rules calls e) e
unfolding call_all
call_all-other rules other [] e apart = (refl, refl, refl)
call_all-other rules other ((id, c) ∷ calls) e apart =
    let step = call-other rules other id c e (apart.0) in
    let later = call_all-other rules other calls (call rules (id, c) e) (apart.1) in
    (later.0 ∙ step.0, later.1 ∙ step.1, later.2 ∙ step.2)

abbrev pub outcome_of : Option (TurnOutcome × ConversationEngine) → Option TurnOutcome
outcome_of none = none
outcome_of (some (outcome, after)) = some outcome

-- the outcome of a turn, from what the session has
abbrev outcome_with :
    TextRules → Turn → Option ConversationState → Option Briefing → Bool → Option TurnOutcome
outcome_with rules turn none briefing detects = none
outcome_with rules turn (some s) briefing detects =
    some (process_turn rules detects turn (record { state = s; briefing = briefing }))

outcome_lem :
    (rules : TextRules) (id : ℕ) (turn : Turn) (s : Option ConversationState)
    (e : ConversationEngine)
    → outcome_of (take_turn rules id turn s e)
      ≡ outcome_with rules turn s (get id e.briefings) e.detect_language_switch
outcome_lem rules id turn none e = refl
outcome_lem rules id turn (some s) e = refl

SameSession-outcome :
    (rules : ℕ → TextRules) (id : ℕ) (turn : Turn) (e f : ConversationEngine)
    → SameSession id e f
    → outcome_of (process_session_turn rules id turn e)
      ≡ outcome_of (process_session_turn rules id turn f)
unfolding process_session_turn
SameSession-outcome rules id turn e f same =
    outcome_lem (rules id) id turn _ e
    ∙ rw (same.0, same.1, same.2) (sym (outcome_lem (rules id) id turn (get id f.states) f))

-- Calls for other sessions, in any number and order, do not touch a session: its state and its
-- briefing stay, and its next turn has the outcome that it would have had without them.
pub others_unseen :
    (rules : ℕ → TextRules) (id : ℕ) (calls : List (ℕ × EngineCall)) (e : ConversationEngine)
    (turn : Turn)
    → All (λ c. (c.0 == id) ≡ false) calls
    → SameSession id (call_all rules calls e) e
      × (outcome_of (process_session_turn rules id turn (call_all rules calls e))
          ≡ outcome_of (process_session_turn rules id turn e))
others_unseen rules id calls e turn apart =
    let same = call_all-other rules id calls e apart in
    (same, SameSession-outcome rules id turn _ e same)
