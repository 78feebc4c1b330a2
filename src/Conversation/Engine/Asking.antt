-- ===== src/Conversation/Engine/Asking.antt =====
-- How often a conversation asks for one thing.
use pitch_bot.Prelude.{
  String, ℕ, ◌+◌, ◌≤◌, ◌<◌, ◌≡◌, ◌∙◌, sym, ◌++◌, refl, ap, arith, Bool, true, false, ◌||◌, Option,
  none, some, List, [], ◌∷◌, leb, Bool-cases, inl, inr, if◌then◌else◌,
}
use pitch_bot.Conversation.Language.{LanguageCode}
use pitch_bot.Deliberation.Briefing.{Briefing}
use pitch_bot.Domain.Facts.{RequirementFact}
use pitch_bot.Conversation.Planning.{
  Slot, same_slot, max_asks_per_slot, Intent, ReplyPlan, plan_reply, Phrase, ask_phrase, ask_again,
  switched_phrase, repeated_phrase, objection_phrase, acknowledge_phrase, pitch_phrase, phrase_for,
  last_phrase, render_reply,
}
use pitch_bot.Conversation.Planning.Laws.{asked_open}
use pitch_bot.Conversation.State.{
  ConversationState, new_conversation, ConversationResult, Reply, fixed, composed, opt_out, abuse,
  internal_info, prompt_injection,
}
use pitch_bot.Conversation.Classify.{classify}
use pitch_bot.Conversation.Engine.{TextRules, Turn, Session, has_signal}
use pitch_bot.Conversation.Engine.Process.{
  Heard, hear, with_state, asked_before, understanding_for, TurnOutcome, capacity_reached,
  conversation_closed, answered, add_slots, count_ask, plan_turn, end_for_opt_out, answer_abuse,
  answer_abuse_after, refuse_unsafe, take_facts, take_evidence, respond, converse, dispatch_turn,
  unless_refused, process_turn, session_after, run_turns,
}

abbrev Counts : Type 0
Counts = Slot → ℕ

-- whether a phrase asks for the slot
abbrev asks : Slot → Phrase → ℕ
asks slot (ask_phrase asked) = if same_slot asked slot then 1 else 0
asks slot (ask_again asked) = if same_slot asked slot then 1 else 0
asks slot _ = 0

unfoldable pub times_asked : Slot → List Phrase → ℕ
times_asked slot [] = 0
times_asked slot (phrase ∷ phrases) = asks slot phrase + times_asked slot phrases

abbrev asked_by : Slot → Reply → ℕ
asked_by slot (fixed table key) = 0
asked_by slot (composed table phrases) = times_asked slot phrases

abbrev asked_in : Slot → TurnOutcome → ℕ
asked_in slot capacity_reached = 0
asked_in slot conversation_closed = 0
asked_in slot (answered result session) = asked_by slot result.reply

-- how often the replies to the turns ask for the slot
unfoldable pub total_asked : TextRules → Bool → List Turn → Session → Slot → ℕ
total_asked rules detects [] session slot = 0
total_asked rules detects (turn ∷ turns) session slot =
    let outcome = process_turn rules detects turn session in
    asked_in slot outcome + total_asked rules detects turns (session_after outcome session) slot

-- the counter of a slot goes up by what is asked, and not above the limit
abbrev Counted : Slot → Counts → ℕ → Counts → Type 0
Counted slot before asked after =
    (after slot ≡ before slot + asked)
    × (before slot ≤ max_asks_per_slot → after slot ≤ max_asks_per_slot)

abbrev AnswerCounted : Slot → Counts → ConversationResult × Session → Type 0
AnswerCounted slot before (result, session) =
    Counted slot before (asked_by slot result.reply) session.state.asked_slot_counts

unchanged : (slot : Slot) (counts : Counts) → Counted slot counts 0 counts
unchanged slot counts = (omega arith, λ h. h)

times_asked-append :
    (slot : Slot) (xs ys : List Phrase)
    → times_asked slot (xs ++ ys) ≡ times_asked slot xs + times_asked slot ys
unfolding times_asked
times_asked-append slot [] ys = omega arith
times_asked-append slot (x ∷ xs) ys = let ih = times_asked-append slot xs ys in omega (arith, ih)

-- a part of a reply that asks for nothing
skipped :
    (slot : Slot) (xs ys : List Phrase)
    → times_asked slot xs ≡ 0
    → times_asked slot (xs ++ ys) ≡ times_asked slot ys
skipped slot xs ys none_asked =
    let split = times_asked-append slot xs ys in omega (arith, split, none_asked)

phrase_for-unasked {ℓ} :
    {A : Type ℓ} (slot : Slot) (f : A → Phrase) (o : Option A)
    → ((x : A) → asks slot (f x) ≡ 0)
    → times_asked slot (phrase_for f o) ≡ 0
unfolding times_asked
phrase_for-unasked slot f none h = refl
phrase_for-unasked slot f (some x) h = let e = h x in omega (arith, e)

switch-unasked :
    (slot : Slot) (switched : Bool)
    → times_asked slot (if switched then switched_phrase ∷ [] else []) ≡ 0
unfolding times_asked
switch-unasked slot switched = ground arith

acknowledged-unasked :
    (slot : Slot) (repeated : Bool) (acknowledged : Option Slot)
    → times_asked slot
        (if repeated then repeated_phrase ∷ [] else phrase_for acknowledge_phrase acknowledged)
      ≡ 0
unfolding times_asked
acknowledged-unasked slot true acknowledged = refl
acknowledged-unasked slot false acknowledged =
    phrase_for-unasked slot acknowledge_phrase acknowledged (λ x. refl)

-- a reply asks for what its last phrase asks for
last_asks :
    (slot : Slot) (plan : ReplyPlan) (language : LanguageCode) (repeated switched : Bool) (c n : ℕ)
    → times_asked slot (render_reply plan language repeated switched c n).1
      ≡ asks slot (last_phrase plan.asked plan.plan_intent c n)
unfolding render_reply times_asked
last_asks slot plan language repeated switched c n =
    skipped slot _ _ (switch-unasked slot switched)
    ∙ skipped slot _ _ (phrase_for-unasked slot objection_phrase plan.objection (λ x. refl))
    ∙ skipped slot _ _ (acknowledged-unasked slot repeated plan.acknowledge)
    ∙ skipped slot _ _ (phrase_for-unasked slot pitch_phrase plan.pitched (λ x. refl))
    ∙ omega arith

same_slot_eq : (a b : Slot) → same_slot a b ≡ true → a ≡ b
same_slot_eq a b h = ground (arith, h)

-- the counter of a slot goes up when the last phrase asks for it
count_ask-Counted :
    (slot : Slot) (asked : Option Slot) (intent : Option Intent) (counts : Counts) (c : ℕ)
    → (asked ≡ some slot → counts slot < max_asks_per_slot)
    → Counted slot counts
        (asks slot (last_phrase asked intent c (asked_before asked counts)))
        (count_ask asked counts)
unfolding last_phrase
count_ask-Counted slot none intent counts c room = (ground arith, λ h. h)
count_ask-Counted slot (some asked) intent counts c room =
    elim (Bool-cases (same_slot asked slot)) [
      | inl same ↦
          let below = room (ap some (same_slot_eq asked slot same)) in
          (ground (arith, same), ground (arith, same, below))
      | inr other ↦ (ground (arith, other), ground (arith, other))
    ]

plan_turn-Counted :
    (slot : Slot) (rules : TextRules) (turn : Turn) (h : Heard) (accepted : List RequirementFact)
    (s : ConversationState)
    → (let planned = plan_turn rules turn h accepted s in
        Counted slot s.asked_slot_counts (asked_by slot planned.0) (planned.1).asked_slot_counts)
unfolding plan_turn
plan_turn-Counted slot rules turn h accepted s =
    let known = record s {
      understood_slot_keys = add_slots s.understood_slot_keys turn.understanding;
    } in
    let understood = understanding_for rules turn accepted known in
    let plan = plan_reply understood h.repeated s.asked_slot_counts max_asks_per_slot in
    let counted =
      count_ask-Counted slot plan.asked plan.plan_intent s.asked_slot_counts s.closing_count
        (λ a. (asked_open understood h.repeated s.asked_slot_counts max_asks_per_slot slot a).1) in
    let asked = last_asks slot plan h.spoken h.repeated h.switched s.closing_count _ in
    (counted.0 ∙ ap (λ n. s.asked_slot_counts slot + n) (sym asked), counted.1)

respond-Counted :
    (slot : Slot) (rules : TextRules) (turn : Turn) (h : Heard) (accepted : List RequirementFact)
    (session : Session)
    → (let responded = respond rules turn h accepted session in
        Counted slot session.state.asked_slot_counts
          (asked_by slot (responded.0.0))
          (responded.1).state.asked_slot_counts)
unfolding respond
respond-Counted slot rules turn h accepted session =
    elim (Bool-cases (leb session.state.max_goal_changes session.state.goal_change_count)) [
      | inl changed ↦ rw changed (unchanged slot session.state.asked_slot_counts)
      | inr on ↦ rw on (plan_turn-Counted slot rules turn h accepted session.state)
    ]

converse-Counted :
    (slot : Slot) (rules : TextRules) (turn : Turn) (h : Heard) (session : Session)
    → AnswerCounted slot session.state.asked_slot_counts (converse rules turn h session)
unfolding converse classify take_facts take_evidence
converse-Counted slot rules turn h session = respond-Counted slot rules turn h _ _

abuse_after-Counted :
    (slot : Slot) (rules : TextRules) (h : Heard) (again : Bool) (s : ConversationState)
    (briefing : Option Briefing)
    → AnswerCounted slot s.asked_slot_counts
        (with_state briefing (answer_abuse_after rules h again s))
unfolding classify
abuse_after-Counted slot rules h true s briefing = unchanged slot s.asked_slot_counts
abuse_after-Counted slot rules h false s briefing = unchanged slot s.asked_slot_counts

dispatch_turn-Counted :
    (slot : Slot) (rules : TextRules) (turn : Turn) (h : Heard) (session : Session)
    → AnswerCounted slot session.state.asked_slot_counts (dispatch_turn rules turn h session)
unfolding dispatch_turn end_for_opt_out refuse_unsafe answer_abuse classify
dispatch_turn-Counted slot rules turn h session =
    let s = session.state in
    let same = unchanged slot s.asked_slot_counts in
    elim (Bool-cases (has_signal opt_out h.signals)) [
      | inl out ↦ rw out same
      | inr stays ↦ elim (Bool-cases (has_signal abuse h.signals)) [
        | inl abusive ↦
            rw (stays, abusive)
              (abuse_after-Counted slot rules h s.abuse_redirected s session.briefing)
        | inr polite ↦
            elim (Bool-cases
              (has_signal internal_info h.signals || has_signal prompt_injection h.signals)) [
                | inl unsafe ↦ rw (stays, polite, unsafe) same
                | inr safe ↦ rw (stays, polite, safe) (converse-Counted slot rules turn h session)
              ]
      ]
    ]

unless_refused-Counted :
    (slot : Slot) (full stopped : Bool) (answer : ConversationResult × Session) (session : Session)
    → AnswerCounted slot session.state.asked_slot_counts answer
    → (let outcome = unless_refused full stopped answer in
        Counted slot session.state.asked_slot_counts
          (asked_in slot outcome)
          (session_after outcome session).state.asked_slot_counts)
unless_refused-Counted slot true stopped answer session next =
    unchanged slot session.state.asked_slot_counts
unless_refused-Counted slot false true answer session next =
    unchanged slot session.state.asked_slot_counts
unless_refused-Counted slot false false answer session next = next

process_turn-Counted :
    (slot : Slot) (rules : TextRules) (detects : Bool) (turn : Turn) (session : Session)
    → (let outcome = process_turn rules detects turn session in
        Counted slot session.state.asked_slot_counts
          (asked_in slot outcome)
          (session_after outcome session).state.asked_slot_counts)
unfolding process_turn hear
process_turn-Counted slot rules detects turn session =
    let s = session.state in
    let heard = hear rules detects turn s in
    let going = record session { state = heard.1 } in
    unless_refused-Counted slot (leb s.max_turns s.turn_count) s.stopped
      (dispatch_turn rules turn (heard.0) going) session
      (dispatch_turn-Counted slot rules turn (heard.0) going)

run_turns-Counted :
    (slot : Slot) (rules : TextRules) (detects : Bool) (turns : List Turn) (session : Session)
    → Counted slot session.state.asked_slot_counts
        (total_asked rules detects turns session slot)
        (run_turns rules detects turns session).state.asked_slot_counts
unfolding run_turns total_asked
run_turns-Counted slot rules detects [] session = unchanged slot session.state.asked_slot_counts
run_turns-Counted slot rules detects (turn ∷ turns) session =
    let step = process_turn-Counted slot rules detects turn session in
    let later =
      run_turns-Counted slot rules detects turns
        (session_after (process_turn rules detects turn session) session) in
    (omega (arith, step.0, later.0), λ h. later.1 (step.1 h))

-- In a conversation from its creation on, whatever the turns say and a model understands of them, the
-- replies ask for each thing at most twice in all.
pub asked_at_most_twice :
    (rules : TextRules) (detects : Bool) (turns : List Turn) (slot : Slot)
    (lead max_turns max_facts max_evidence max_classifications max_goal_changes : ℕ) (key : String)
    → (let created =
          new_conversation lead max_turns max_facts max_evidence max_classifications
            max_goal_changes key in
        total_asked rules detects turns (record { state = created; briefing = none }) slot ≤ 2)
unfolding new_conversation
asked_at_most_twice rules detects turns slot lead max_turns max_facts max_evidence
      max_classifications max_goal_changes key =
    let created =
      new_conversation lead max_turns max_facts max_evidence max_classifications max_goal_changes
        key in
    let all =
      run_turns-Counted slot rules detects turns (record { state = created; briefing = none }) in
    let few = all.1 (omega arith) in omega (arith, all.0, few)
