-- ===== src/Conversation/Journal/Step.antt =====
-- One turn and its event, in a replay.
use pitch_bot.Prelude.{
  String, ℕ, ◌+◌, ◌-◌, ◌≤◌, ◌<◌, ◌≡◌, refl, sym, ap, ◌∙◌, arith, Bool, true, false, not, ◌||◌,
  Option, none, some, List, [], ◌∷◌, ◌++◌, map, length, length-append, drop, drop-append, ==_iff,
  member, latest, string_eq, nat_eq, beq_refl,
}
use pitch_bot.Conversation.Language.{LanguageState}
use pitch_bot.Conversation.State.{ConversationState, ConversationResult, digest_capacity}
use pitch_bot.Conversation.Checkpoint.{checkpoint_of}
use pitch_bot.Conversation.Checkpoint.Laws.{StateOk, CapacitiesOk, all_of-All}
use pitch_bot.Conversation.Journal.{
  ConversationTurnEvent, validate_consistency, event_ok, last_digest, event_with, event_of_digest,
  event_from_state, same_configuration, follows, validate_replay_event, ReplayFold, fold_event,
  replayed_checkpoint,
}
use pitch_bot.Conversation.Engine.Process.{Heard}
use pitch_bot.Conversation.Engine.Sessions.{settings}
use pitch_bot.Conversation.Journal.Recorded.{Recorded}

last_digest-append {ℓ} : {A : Type ℓ} (xs : List A) (x : A) → last_digest (xs ++ x ∷ []) ≡ some x
last_digest-append [] x = refl
last_digest-append (y ∷ []) x = refl
last_digest-append (y ∷ z ∷ xs) x = last_digest-append (z ∷ xs) x

last_digest-latest {ℓ} :
    {A : Type ℓ} (n : ℕ) (xs : List A) (x : A)
    → 0 < n
    → last_digest (latest n (xs ++ x ∷ [])) ≡ some x
unfolding latest
last_digest-latest n xs x pos =
    let short : length (xs ++ x ∷ []) - n ≤ length xs =
      omega (arith, pos, length-append xs (x ∷ [])) in
    ap last_digest (drop-append (length (xs ++ x ∷ []) - n) xs (x ∷ []) short)
    ∙ last_digest-append (drop (length (xs ++ x ∷ []) - n) xs) x

-- the fold of a replay that has got to a state
abbrev pub fold_of : ConversationState → Option ConversationTurnEvent → ReplayFold
fold_of s p = record {
  facts_by_key = s.facts_by_key;
  evidence = s.evidence;
  classifications = s.classifications;
  recent_turn_digests = s.recent_turn_digests;
  previous = p;
}

-- an event has the configuration of a conversation
pub record Config (e : ConversationTurnEvent) (s : ConversationState) : Type 0 where
  pub turns : e.max_turns ≡ s.max_turns
  pub facts : e.max_facts ≡ s.max_facts
  pub evidence : e.max_evidence ≡ s.max_evidence
  pub classifications : e.max_classifications ≡ s.max_classifications
  pub goals : e.max_goal_changes ≡ s.max_goal_changes
  pub key : e.digest_key_id ≡ s.digest_key_id

-- an event is that of the last turn before a state
pub record Agrees (e : ConversationTurnEvent) (s : ConversationState) : Type 0 where
  pub phase : e.result.result_phase ≡ s.phase
  pub turns : e.result.result_turn_count ≡ s.turn_count
  pub abused : e.abuse_redirected ≡ s.abuse_redirected
  pub stopped : e.stopped ≡ s.stopped
  pub goal : e.goal_change_count ≡ s.goal_change_count
  pub language : e.result.language ≡ s.language_state.language
  pub declared : e.declared_language ≡ s.language_state.declared_language
  pub pending : e.pending_language ≡ s.language_state.pending_language
  pub count : e.pending_language_count ≡ s.language_state.pending_language_count

abbrev pub PreviousOk : Option ConversationTurnEvent → ConversationState → Type 0
PreviousOk none s = Unit
PreviousOk (some p) s = Agrees p s

pub replayed_lem :
    (first p : ConversationTurnEvent) (s : ConversationState)
    → Config first s
    → Agrees p s
    → replayed_checkpoint s.lead_id first p (fold_of s (some p)) ≡ checkpoint_of s
unfolding checkpoint_of
replayed_lem first p s c a =
    rw
      (
        c.turns, c.facts, c.evidence, c.classifications, c.goals, c.key, a.phase, a.turns, a.abused,
        a.stopped, a.goal, a.language, a.declared, a.pending, a.count,
      )
      refl

follows_lem :
    (p : Option ConversationTurnEvent) (s : ConversationState) (e : ConversationTurnEvent)
    → PreviousOk p s
    → s.stopped ≡ false
    → s.goal_change_count ≤ e.goal_change_count
    → (not s.abuse_redirected || e.abuse_redirected) ≡ true
    → follows p e ≡ true
unfolding follows
follows_lem none s e ok going goal abused = refl
follows_lem (some p) s e ok going goal abused =
    ground (arith, ok.stopped, ok.goal, ok.abused, going, goal, abused)

same_configuration_lem :
    (e first : ConversationTurnEvent) (s : ConversationState)
    → Config e s
    → Config first s
    → same_configuration e first ≡ true
unfolding same_configuration
same_configuration_lem e first s c d =
    rw
      (
        c.turns ∙ sym d.turns,
        c.facts ∙ sym d.facts,
        c.evidence ∙ sym d.evidence,
        c.classifications ∙ sym d.classifications,
        c.goals ∙ sym d.goals,
        c.key ∙ sym d.key,
      )
      (ground (arith, beq_refl first.digest_key_id))

-- the state that a turn was heard in, from the one before
abbrev pub heard_in : String → LanguageState → ConversationState → ConversationState
heard_in d l s = record s {
  language_state = l;
  turn_count = s.turn_count + 1;
  recent_turn_digests = latest (digest_capacity s) (s.recent_turn_digests ++ d ∷ []);
}

module _ (is_digest : String → Bool) (session_id operation_id : ℕ) (fingerprint d : String)
    (h : Heard) (l : LanguageState) (s t : ConversationState) (r : ConversationResult)
    (kept : Recorded h (heard_in d l s) r t) (spoken : l.language ≡ h.spoken)
    (same : settings t ≡ settings s) (ok : StateOk is_digest t) (fits : CapacitiesOk is_digest t)
    (print : is_digest fingerprint ≡ true) (hex : is_digest d ≡ true) where
  abbrev pub event : ConversationTurnEvent
  event = event_with session_id operation_id fingerprint (checkpoint_of t) r d

  digest_lem : last_digest t.recent_turn_digests ≡ some d
  digest_lem =
      let cap : 0 < digest_capacity s = ground (arith, fits.0, ap (λ c. c.1) same) in
      ap last_digest kept.digests
      ∙ last_digest-latest (digest_capacity s) s.recent_turn_digests d cap

  consistent_lem : validate_consistency event ≡ true
  unfolding validate_consistency checkpoint_of
  consistent_lem = ground (
    arith,
    kept.stops,
    ok.closing,
    kept.phase,
    all_of-All (λ v. member v.replacement_fact_id (map (λ f. f.fact_id) r.facts)) r.revisions
        kept.linked,
  )

  event_lem : event_ok is_digest event ≡ true
  unfolding event_ok checkpoint_of
  event_lem = rw (print, hex, fits.0, fits.1, fits.2, fits.3, fits.4, fits.5, consistent_lem) refl

  pub event_from_state_lem :
      event_from_state is_digest session_id operation_id fingerprint (checkpoint_of t) r
      ≡ some event
  unfolding event_from_state checkpoint_of
  event_from_state_lem =
      ap (event_of_digest is_digest session_id operation_id fingerprint (checkpoint_of t) r)
        digest_lem
      ∙ rw event_lem refl

  pub Config_lem : Config event s
  unfolding checkpoint_of
  Config_lem = record {
    turns = ap (λ c. c.1) same;
    facts = ap (λ c. c.2) same;
    evidence = ap (λ c. c.3) same;
    classifications = ap (λ c. c.4) same;
    goals = ap (λ c. c.5) same;
    key = ap (λ c. c.6) same;
  }

  pub Agrees_lem : Agrees event t
  unfolding checkpoint_of
  Agrees_lem = record {
    phase = kept.phase;
    turns = kept.result_turns;
    abused = refl;
    stopped = refl;
    goal = refl;
    language = kept.spoken ∙ sym spoken ∙ sym (ap (λ x. x.language) kept.language);
    declared = refl;
    pending = refl;
    count = refl;
  }

  module _ (first : ConversationTurnEvent) (p : Option ConversationTurnEvent)
      (config : Config first s) where
    pub fold_event_lem : fold_event first event (fold_of s p) ≡ fold_of t (some event)
    fold_event_lem =
        rw (config.turns, config.evidence, config.classifications)
          (rw (kept.facts, kept.evidence, kept.classifications, kept.digests) refl)

    pub validate_lem :
        s.stopped ≡ false
        → PreviousOk p s
        → validate_replay_event s.lead_id (s.turn_count + 1) first p event ≡ true
    unfolding validate_replay_event checkpoint_of
    validate_lem going previous =
        rw
          (
            same_configuration_lem event first s Config_lem config,
            (==_iff r.result_turn_count (s.turn_count + 1)).1 (kept.result_turns ∙ kept.turns),
            kept.leads,
            follows_lem p s event previous going kept.goal kept.abused,
          )
          refl
