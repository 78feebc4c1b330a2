-- ===== src/Conversation/Journal/Replays.antt =====
-- Whole conversations and their replays.
use pitch_bot.Prelude.{
  String, ℕ, ◌+◌, ◌≡◌, refl, sym, ap, ◌∙◌, arith, Bool, true, false, Option, none, some, List, [],
  ◌∷◌, map, is_some, Bool-cases, inl, inr,
}
use pitch_bot.Actions.Policy.{cold}
use pitch_bot.Conversation.Language.{english}
use pitch_bot.Conversation.State.{
  ConversationState, new_conversation, ConversationResult, composed, continue, discovery,
}
use pitch_bot.Conversation.Checkpoint.{checkpoint_ok, checkpoint_of}
use pitch_bot.Conversation.Checkpoint.Laws.{StateOk, CapacitiesOk, checkpoint_ok_lem}
use pitch_bot.Conversation.Engine.{TextRules, Turn, Session}
use pitch_bot.Conversation.Engine.Process.{run_turns}
use pitch_bot.Conversation.Engine.Parts.{RulesOk}
use pitch_bot.Conversation.Engine.Sessions.{new_conversation-StateOk}
use pitch_bot.Conversation.Journal.{
  ConversationTurnEvent, ConversationReplay, event_with, fold_events, ReplayFold, empty_fold,
  Journal, failed, done, not_found, replay_session_events, replay_folded, replayed_checkpoint,
  validate_replay_event,
}
use pitch_bot.Conversation.Journal.Step.{fold_of, Config, PreviousOk, replayed_lem}
use pitch_bot.Conversation.Journal.Folded.{
  journal_turns, Ready, Folded, Config-settings, journal_turns-Folded,
}

-- a result, for an event that only its configuration matters of
abbrev sample_result : ConversationResult
sample_result = record {
  reply = composed english [];
  language = english;
  language_switched = false;
  disposition = continue;
  result_phase = discovery;
  safety_signals = [];
  facts = [];
  revisions = [];
  new_evidence = [];
  classification = record {
    lead_id = 0;
    temperature = cold;
    score = 0;
    confidence = 0;
    evidence_ids = [];
    counter_evidence_ids = [];
    rule_version = "";
  };
  repeated_turn = false;
  result_turn_count = 0;
}

-- an event with the configuration of a conversation
abbrev sample_event : ConversationState → ConversationTurnEvent
sample_event s = event_with 0 0 "" (checkpoint_of s) sample_result ""

sample-Config : (s : ConversationState) → Config (sample_event s) s
unfolding checkpoint_of
sample-Config s = record {
  turns = refl;
  facts = refl;
  evidence = refl;
  classifications = refl;
  goals = refl;
  key = refl;
}

-- the replay gives a state's checkpoint, when there are events
abbrev pub ReplaysTo :
    List ConversationTurnEvent → Journal ConversationReplay → ConversationState → Type 0
ReplaysTo [] replay s = replay ≡ failed not_found
ReplaysTo (e ∷ events) replay s =
    (found : ConversationReplay) × (replay ≡ done found) × (found.checkpoint ≡ checkpoint_of s)

abbrev has_previous : Option ReplayFold → Bool
has_previous none = true
has_previous (some f) = is_some f.previous

fold_events-has_previous :
    (lead n : ℕ) (first : ConversationTurnEvent) (f : ReplayFold)
    (events : List ConversationTurnEvent)
    → is_some f.previous ≡ true
    → has_previous (fold_events lead n first f events) ≡ true
unfolding fold_events
fold_events-has_previous lead n first f [] h = h
fold_events-has_previous lead n first f (e ∷ events) h =
    elim (Bool-cases (validate_replay_event lead n first f.previous e)) [
      | inl valid ↦ rw valid (fold_events-has_previous lead (n + 1) first _ events refl)
      | inr broken ↦ rw broken refl
    ]

fold_events-previous :
    (lead n : ℕ) (first : ConversationTurnEvent) (f : ReplayFold) (e : ConversationTurnEvent)
    (events : List ConversationTurnEvent)
    → has_previous (fold_events lead n first f (e ∷ events)) ≡ true
unfolding fold_events
fold_events-previous lead n first f e events =
    elim (Bool-cases (validate_replay_event lead n first f.previous e)) [
      | inl valid ↦ rw valid (fold_events-has_previous lead (n + 1) first _ events refl)
      | inr broken ↦ rw broken refl
    ]

-- the end of a replay, at the last event
ended :
    (is_digest : String → Bool) (session_id version : ℕ) (first : ConversationTurnEvent)
    (q : Option ConversationTurnEvent) (s : ConversationState) (lead : ℕ)
    → is_some q ≡ true
    → s.lead_id ≡ lead
    → Config first s
    → PreviousOk q s
    → StateOk is_digest s
    → CapacitiesOk is_digest s
    → (found : ConversationReplay) × (replay_folded is_digest lead session_id version first
          (some (fold_of s q))
        ≡ done found)
      × (found.checkpoint ≡ checkpoint_of s)
ended is_digest session_id version first none s lead some_q mine config previous ok fits =
    absurd (ground (arith, some_q))
ended is_digest session_id version first (some p) s lead some_q mine config previous ok fits =
    let c = replayed_checkpoint lead first p (fold_of s (some p)) in
    let same : c ≡ checkpoint_of s =
      ap (λ k. replayed_checkpoint k first p (fold_of s (some p))) (sym mine)
      ∙ replayed_lem first p s config previous in
    let valid = ap (checkpoint_ok is_digest) same ∙ checkpoint_ok_lem is_digest s ok fits in
    (
      record {
        lead_id = lead;
        session_id = session_id;
        aggregate_version = version;
        checkpoint = c;
        last_result = p.result;
      },
      rw valid refl,
      same,
    )

replays :
    (is_digest : String → Bool) (session_id version : ℕ) (created : ConversationState)
    (before next : Session) (events : List ConversationTurnEvent) (after : Session)
    → (fold_of before.state none ≡ empty_fold)
    → before.state.turn_count ≡ 0
    → ((first : ConversationTurnEvent)
        → Config first created
        → Folded is_digest created before first none next (events, after))
    → ReplaysTo events
        (replay_session_events is_digest created.lead_id session_id version events)
        after.state
unfolding replay_session_events
replays is_digest session_id version created before next [] after fresh zeroth folded = refl
replays is_digest session_id version created before next (e ∷ events) after fresh zeroth folded =
    let config = (folded (sample_event created) (sample-Config created)).configs.0 in
    let f = folded e config in
    let s = after.state in
    let from_start =
      ap (λ x. fold_events created.lead_id 1 e x (e ∷ events)) (sym fresh)
      ∙ ap (λ n. fold_events created.lead_id (n + 1) e (fold_of before.state none) (e ∷ events))
          (sym zeroth)
      ∙ f.folds in
    let some_q =
      ap has_previous (sym from_start)
      ∙ fold_events-previous created.lead_id 1 e empty_fold e events in
    let end =
      ended is_digest session_id version e f.q s created.lead_id some_q (ap (λ c. c.0) f.ready.same)
        (Config-settings e created s (sym f.ready.same) config) f.previous f.ready.ok
        f.ready.fits in
    (
      end.0,
      ap (replay_folded is_digest created.lead_id session_id version e) from_start ∙ end.1,
      end.2,
    )

-- Take a conversation created with capacities between 1 and 10,000 and a digest key that is a digest;
-- rules whose digests are digests and whose evidence belongs to the lead; and fingerprints that are
-- digests. After any turns, each with an operation identifier: no turn was undone for its event, so
-- that the session is what the turns alone lead to; and the events, replayed, give the checkpoint of
-- that session's state, or are not found when no turn was answered.
pub replay_restores :
    (is_digest : String → Bool) (rules : TextRules) (detects : Bool) (fingerprint : Turn → String)
    (session_id version : ℕ) (turns : List (ℕ × Turn))
    (lead max_turns max_facts max_evidence max_classifications max_goal_changes : ℕ) (key : String)
    → RulesOk is_digest rules
    → ((turn : Turn) → is_digest (fingerprint turn) ≡ true)
    → CapacitiesOk is_digest (
        new_conversation lead max_turns max_facts max_evidence max_classifications max_goal_changes
          key)
    → (let created =
          new_conversation lead max_turns max_facts max_evidence max_classifications
            max_goal_changes key in
        let start : Session = record { state = created; briefing = none } in
        let journal = journal_turns is_digest rules detects fingerprint session_id turns start in
        (journal.1 ≡ run_turns rules detects (map (λ t. t.1) turns) start)
        × ReplaysTo journal.0
            (replay_session_events is_digest lead session_id version journal.0)
            journal.1.state)
unfolding new_conversation
replay_restores is_digest rules detects fingerprint session_id version turns lead max_turns
      max_facts max_evidence max_classifications max_goal_changes key good print fits =
    let created =
      new_conversation lead max_turns max_facts max_evidence max_classifications max_goal_changes
        key in
    let start : Session = record { state = created; briefing = none } in
    let ready : Ready is_digest created created = record {
      ok =
          new_conversation-StateOk is_digest lead max_turns max_facts max_evidence
            max_classifications max_goal_changes key;
      fits = fits;
      same = refl;
    } in
    let journal = journal_turns is_digest rules detects fingerprint session_id turns start in
    let folded = λ (first : ConversationTurnEvent) (config : Config first created).
      journal_turns-Folded is_digest rules detects fingerprint session_id turns created start first
        none good print config ready tt in
    (
      (folded (sample_event created) (sample-Config created)).kept,
      replays is_digest session_id version created start _ journal.0 journal.1 refl refl folded,
    )
