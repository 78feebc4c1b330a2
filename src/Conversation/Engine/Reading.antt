-- ===== src/Conversation/Engine/Reading.antt =====
-- What a model's reading of a turn can change.
use pitch_bot.Prelude.{
  String, ℕ, ◌+◌, ◌≡◌, ◌∙◌, ap, refl, arith, Bool, true, false, ◌||◌, Option, none, some, List, [],
  ◌∷◌, leb, Dict, get, string_eq, Bool-cases, inl, inr,
}
use pitch_bot.Domain.Facts.{RequirementFact, RequirementRevision}
use pitch_bot.Conversation.State.{
  ConversationState, ConversationResult, opt_out, abuse, internal_info, prompt_injection,
  SafetySignal,
}
use pitch_bot.Conversation.Classify.{classify, classification_of}
use pitch_bot.Conversation.Planning.{TurnUnderstanding}
use pitch_bot.Conversation.Checkpoint.{checkpoint_of}
use pitch_bot.Conversation.Engine.{
  TextRules, Turn, Session, has_signal, ExtractionResult, extract_business_signals, extract_facts,
  add_candidate,
}
use pitch_bot.Conversation.Engine.Process.{
  Heard, hear, plan_turn, take_facts, take_evidence, fresh_evidence, respond, converse_on, converse,
  extraction_of, dispatch_turn, unless_refused, TurnOutcome, capacity_reached, conversation_closed,
  answered, process_turn,
}

abbrev with_reading : Option TurnUnderstanding → Turn → Turn
with_reading u turn = record turn { understanding = u }

-- the same, but for the words of the reply and for what a checkpoint does not keep
abbrev Alike : ConversationResult × Session → ConversationResult × Session → Type 0
Alike (r, s) (q, t) =
    (record r { reply = q.reply } ≡ q)
    × (checkpoint_of s.state ≡ checkpoint_of t.state)
    × (s.briefing ≡ t.briefing)

abbrev pub AlikeOutcomes : TurnOutcome → TurnOutcome → Type 0
AlikeOutcomes (answered r s) (answered q t) = Alike (r, s) (q, t)
AlikeOutcomes capacity_reached capacity_reached = Unit
AlikeOutcomes conversation_closed conversation_closed = Unit
AlikeOutcomes _ _ = ⊥

add_candidate-reading :
    (u v : Option TurnUnderstanding) (turn : Turn) (lead i : ℕ) (key value : String)
    (existing : Option RequirementFact) (rest : List RequirementFact × List RequirementRevision)
    → add_candidate (with_reading u turn) lead i key value existing rest
      ≡ add_candidate (with_reading v turn) lead i key value existing rest
add_candidate-reading u v turn lead i key value none rest = refl
add_candidate-reading u v turn lead i key value (some old) rest = refl

extract_facts-reading :
    (u v : Option TurnUnderstanding) (turn : Turn) (lead i : ℕ) (d : Dict String RequirementFact)
    (candidates : List (String × String))
    → extract_facts (with_reading u turn) lead i d candidates
      ≡ extract_facts (with_reading v turn) lead i d candidates
unfolding extract_facts
extract_facts-reading u v turn lead i d [] = refl
extract_facts-reading u v turn lead i d ((key, value) ∷ candidates) =
    ap (add_candidate (with_reading u turn) lead i key value (get key d))
      (extract_facts-reading u v turn lead (i + 1) d candidates)
    ∙ add_candidate-reading u v turn lead i key value (get key d) _

extraction-reading :
    (u v : Option TurnUnderstanding) (rules : TextRules) (turn : Turn) (repeated : Bool)
    (s : ConversationState)
    → extraction_of rules (with_reading u turn) repeated s
      ≡ extraction_of rules (with_reading v turn) repeated s
unfolding extract_business_signals
extraction-reading u v rules turn true s = refl
extraction-reading u v rules turn false s =
    rw (extract_facts-reading u v turn s.lead_id 0 s.facts_by_key (rules.candidates turn.turn_text))
      refl

converse_on-Alike :
    (u v : Option TurnUnderstanding) (rules : TextRules) (turn : Turn) (h : Heard)
    (x : ExtractionResult) (session : Session)
    → Alike
        (converse_on rules (with_reading u turn) h x session)
        (converse_on rules (with_reading v turn) h x session)
unfolding respond plan_turn classify classification_of checkpoint_of
converse_on-Alike u v rules turn h x session =
    let taken = (take_facts x session.state).1 in
    let s = take_evidence (fresh_evidence x taken) taken in
    elim (Bool-cases (leb s.max_goal_changes s.goal_change_count)) [
      | inl changed ↦ rw changed (refl, refl, refl)
      | inr on ↦ rw on (refl, refl, refl)
    ]

converse-Alike :
    (u v : Option TurnUnderstanding) (rules : TextRules) (turn : Turn) (h : Heard)
    (session : Session)
    → Alike
        (converse rules (with_reading u turn) h session)
        (converse rules (with_reading v turn) h session)
unfolding converse
converse-Alike u v rules turn h session =
    rw (extraction-reading u v rules turn h.repeated session.state) (
      converse_on-Alike u v rules turn h
        (extraction_of rules (with_reading v turn) h.repeated session.state) session)

Alike-refl : (answer : ConversationResult × Session) → Alike answer answer
Alike-refl answer = (refl, refl, refl)

-- a turn that is not talked further about
abbrev is_short : List SafetySignal → Bool
is_short signals =
    has_signal opt_out signals
    || (has_signal abuse signals
        || (has_signal internal_info signals || has_signal prompt_injection signals))

dispatch_turn-short :
    (u v : Option TurnUnderstanding) (rules : TextRules) (turn : Turn) (h : Heard)
    (session : Session)
    → is_short h.signals ≡ true
    → dispatch_turn rules (with_reading u turn) h session
      ≡ dispatch_turn rules (with_reading v turn) h session
unfolding dispatch_turn
dispatch_turn-short u v rules turn h session short =
    elim (Bool-cases (has_signal opt_out h.signals)) [
      | inl out ↦ rw out refl
      | inr stays ↦ elim (Bool-cases (has_signal abuse h.signals)) [
        | inl abusive ↦ rw (stays, abusive) refl
        | inr polite ↦
            elim (Bool-cases
              (has_signal internal_info h.signals || has_signal prompt_injection h.signals)) [
                | inl unsafe ↦ rw (stays, polite, unsafe) refl
                | inr safe ↦ absurd (ground (arith, short, stays, polite, safe))
              ]
      ]
    ]

dispatch_turn-Alike :
    (u v : Option TurnUnderstanding) (rules : TextRules) (turn : Turn) (h : Heard)
    (session : Session)
    → Alike
        (dispatch_turn rules (with_reading u turn) h session)
        (dispatch_turn rules (with_reading v turn) h session)
unfolding dispatch_turn
dispatch_turn-Alike u v rules turn h session = elim (Bool-cases (has_signal opt_out h.signals)) [
  | inl out ↦ rw out (Alike-refl _)
  | inr stays ↦ elim (Bool-cases (has_signal abuse h.signals)) [
    | inl abusive ↦ rw (stays, abusive) (Alike-refl _)
    | inr polite ↦
        elim (Bool-cases
          (has_signal internal_info h.signals || has_signal prompt_injection h.signals)) [
            | inl unsafe ↦ rw (stays, polite, unsafe) (Alike-refl _)
            | inr safe ↦ rw (stays, polite, safe) (converse-Alike u v rules turn h session)
          ]
  ]
]

unless_refused-Alike :
    (full stopped : Bool) (a b : ConversationResult × Session)
    → Alike a b
    → AlikeOutcomes (unless_refused full stopped a) (unless_refused full stopped b)
unless_refused-Alike true stopped a b alike = tt
unless_refused-Alike false true a b alike = tt
unless_refused-Alike false false a b alike = alike

-- What a model makes of a turn changes nothing of the turn's outcome but the words of the reply: the
-- refusals, the facts, the evidence, the rating, the disposition, what a checkpoint keeps of the state
-- and the briefing are the same for any two readings, or none.
pub reading_changes_words_only :
    (rules : TextRules) (detects : Bool) (turn : Turn) (u v : Option TurnUnderstanding)
    (session : Session)
    → AlikeOutcomes
        (process_turn rules detects (record turn { understanding = u }) session)
        (process_turn rules detects (record turn { understanding = v }) session)
unfolding process_turn hear
reading_changes_words_only rules detects turn u v session =
    let s = session.state in
    let heard = hear rules detects turn s in
    unless_refused-Alike (leb s.max_turns s.turn_count) s.stopped _ _
      (dispatch_turn-Alike u v rules turn (heard.0) (record session { state = heard.1 }))

-- When a turn opts out, is abusive, asks for internal information or injects a prompt, its outcome,
-- the words of the reply included, is the same whatever a model makes of it.
pub safety_ignores_reading :
    (rules : TextRules) (detects : Bool) (turn : Turn) (u v : Option TurnUnderstanding)
    (session : Session)
    → is_short (rules.detect_safety_signals turn.turn_text) ≡ true
    → process_turn rules detects (record turn { understanding = u }) session
      ≡ process_turn rules detects (record turn { understanding = v }) session
unfolding process_turn hear
safety_ignores_reading rules detects turn u v session short =
    let s = session.state in
    let heard = hear rules detects turn s in
    ap (unless_refused (leb s.max_turns s.turn_count) s.stopped)
      (dispatch_turn-short u v rules turn (heard.0) (record session { state = heard.1 }) short)
