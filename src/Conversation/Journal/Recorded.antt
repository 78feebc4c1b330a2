-- ===== src/Conversation/Journal/Recorded.antt =====
-- What the result of a turn says of the state after it.
use mathlib.Core.List.{append-nil}
use pitch_bot.Prelude.{
  String, ℕ, ◌≤◌, ◌≡◌, refl, sym, ap, ◌∙◌, arith, Bool, true, false, not, ◌||◌, [], ◌∷◌, ◌++◌, leb,
  ==_iff, nat_eq, latest, latest_all, All, Bool-cases, inl, inr,
}
use pitch_bot.Domain.Facts.{Classification}
use pitch_bot.Conversation.State.{
  ConversationState, ConversationResult, ConversationPhase, closed, ConversationDisposition, stop,
  redirect, FixedReply, opt_out, abuse, internal_info, prompt_injection, opt_out_reply, abuse_stop,
  abuse_redirect, unsafe_request,
}
use pitch_bot.Conversation.Classify.{classify, classification_of}
use pitch_bot.Conversation.Checkpoint.{all_of, facts_by_key_of}
use pitch_bot.Conversation.Checkpoint.Laws.{StateOk, all_of-mine}
use pitch_bot.Conversation.Engine.{TextRules, Turn, Session, has_signal}
use pitch_bot.Conversation.Engine.Process.{
  Heard, answer_shortly, end_for_opt_out, answer_abuse, answer_abuse_after, refuse_unsafe,
  plan_turn, extraction_of, take_facts, take_evidence, fresh_evidence, respond, converse,
  dispatch_turn,
}
use pitch_bot.Conversation.Engine.Parts.{RulesOk, extracted-mine, new_dimensions-All}
use pitch_bot.Conversation.Journal.{is_stop, result_leads_ok}
use pitch_bot.Conversation.Journal.Accepting.{Linked, take_facts-AcceptedOk}

-- A state, the result of a turn that was heard in it, and the state after the turn.
pub record Recorded (h : Heard) (s : ConversationState) (r : ConversationResult)
    (t : ConversationState) : Type 0 where
  pub facts : t.facts_by_key ≡ facts_by_key_of r.facts s.facts_by_key
  pub evidence : t.evidence ≡ latest s.max_evidence (s.evidence ++ r.new_evidence)
  pub classifications :
      t.classifications ≡ latest s.max_classifications (s.classifications ++ r.classification ∷ [])
  pub digests : t.recent_turn_digests ≡ s.recent_turn_digests
  pub language : t.language_state ≡ s.language_state
  pub spoken : r.language ≡ h.spoken
  pub turns : t.turn_count ≡ s.turn_count
  pub result_turns : r.result_turn_count ≡ t.turn_count
  pub phase : r.result_phase ≡ t.phase
  pub goal : s.goal_change_count ≤ t.goal_change_count
  pub abused : (not s.abuse_redirected || t.abuse_redirected) ≡ true
  pub stops : t.stopped ≡ is_stop r.disposition
  pub leads : result_leads_ok s.lead_id r ≡ true
  pub linked : Linked r.facts r.revisions

abbrev AnswerRecorded : Heard → ConversationState → ConversationResult × ConversationState → Type 0
AnswerRecorded h s (r, t) = Recorded h s r t

short_leads :
    (lead : ℕ) (h : Heard) (key : FixedReply) (disposition : ConversationDisposition)
    (c : Classification) (t : ConversationState)
    → c.lead_id ≡ lead
    → result_leads_ok lead (answer_shortly h key disposition (c, t)).0 ≡ true
unfolding result_leads_ok all_of
short_leads lead h key disposition c t mine = rw ((==_iff c.lead_id lead).1 mine) refl

-- an answer that takes no facts
short-Recorded :
    (is_digest : String → Bool) (h : Heard) (key : FixedReply)
    (disposition : ConversationDisposition) (version : String) (force stopped abused : Bool)
    (phase : ConversationPhase) (s : ConversationState)
    → stopped ≡ is_stop disposition
    → (not s.abuse_redirected || abused) ≡ true
    → StateOk is_digest s
    → (let answer = answer_shortly h key disposition (
          classify version force
            (record s { stopped = stopped; phase = phase; abuse_redirected = abused })) in
        Recorded h s answer.0 answer.1)
unfolding classify classification_of facts_by_key_of
short-Recorded is_digest h key disposition version force stopped abused phase s stops keeps ok =
    let rated =
      classify version force
        (record s { stopped = stopped; phase = phase; abuse_redirected = abused }) in
    record {
      facts = refl;
      evidence = sym (
          ap (latest s.max_evidence) (append-nil s.evidence)
          ∙ latest_all s.max_evidence s.evidence ok.few_evidence);
      classifications = refl;
      digests = refl;
      language = refl;
      spoken = refl;
      turns = refl;
      result_turns = refl;
      phase = refl;
      goal = omega arith;
      abused = keeps;
      stops = stops;
      leads = short_leads s.lead_id h key disposition (rated.0) (rated.1) refl;
      linked = tt;
    }

kept_abuse : (b : Bool) → (not b || b) ≡ true
kept_abuse b = ground arith

abuse_after-Recorded :
    (is_digest : String → Bool) (rules : TextRules) (h : Heard) (again : Bool)
    (s : ConversationState)
    → s.stopped ≡ false
    → StateOk is_digest s
    → AnswerRecorded h s (answer_abuse_after rules h again s)
abuse_after-Recorded is_digest rules h true s going ok =
    short-Recorded is_digest h abuse_stop stop rules.rule_version false true s.abuse_redirected
      closed s refl (kept_abuse s.abuse_redirected) ok
abuse_after-Recorded is_digest rules h false s going ok =
    short-Recorded is_digest h abuse_redirect redirect rules.rule_version false s.stopped true
      s.phase s going (ground arith) ok

-- the records of a turn that is talked further about belong to the lead
converse_leads :
    (lead : ℕ) (r : ConversationResult)
    → r.classification.lead_id ≡ lead
    → All (λ f. f.lead_id ≡ lead) r.facts
    → All (λ v. v.lead_id ≡ lead) r.revisions
    → All (λ i. i.lead_id ≡ lead) r.new_evidence
    → result_leads_ok lead r ≡ true
unfolding result_leads_ok
converse_leads lead r c f v e =
    rw
      (
        (==_iff r.classification.lead_id lead).1 c,
        all_of-mine (λ f. f.lead_id) lead r.facts f,
        all_of-mine (λ v. v.lead_id) lead r.revisions v,
        all_of-mine (λ i. i.lead_id) lead r.new_evidence e,
      )
      refl

converse-Recorded :
    (is_digest : String → Bool) (rules : TextRules) (turn : Turn) (h : Heard) (session : Session)
    → RulesOk is_digest rules
    → session.state.stopped ≡ false
    → (let answer = converse rules turn h session in
        Recorded h session.state answer.0 answer.1.state)
unfolding converse respond plan_turn take_facts take_evidence classify classification_of
converse-Recorded is_digest rules turn h session good going =
    let s = session.state in
    let mine = extracted-mine is_digest rules turn h.repeated s good in
    let x = extraction_of rules turn h.repeated s in
    let taken = (take_facts x s).1 in
    let t = take_evidence (fresh_evidence x taken) taken in
    let accepted = take_facts-AcceptedOk rules turn h.repeated s mine.0 in
    let items = new_dimensions-All (λ i. i.lead_id ≡ s.lead_id) _ x.evidence mine.1 in
    elim (Bool-cases (leb t.max_goal_changes t.goal_change_count)) [
      | inl changed ↦ rw changed (record {
        facts = accepted.built;
        evidence = refl;
        classifications = refl;
        digests = refl;
        language = refl;
        spoken = refl;
        turns = refl;
        result_turns = refl;
        phase = refl;
        goal = accepted.forward;
        abused = kept_abuse s.abuse_redirected;
        stops = going;
        leads = converse_leads s.lead_id _ refl accepted.mine accepted.revisions_mine items;
        linked = accepted.linked;
      })
      | inr on ↦ rw on (record {
        facts = accepted.built;
        evidence = refl;
        classifications = refl;
        digests = refl;
        language = refl;
        spoken = refl;
        turns = refl;
        result_turns = refl;
        phase = refl;
        goal = accepted.forward;
        abused = kept_abuse s.abuse_redirected;
        stops = going;
        leads = converse_leads s.lead_id _ refl accepted.mine accepted.revisions_mine items;
        linked = accepted.linked;
      })
    ]

pub dispatch_turn-Recorded :
    (is_digest : String → Bool) (rules : TextRules) (turn : Turn) (h : Heard) (session : Session)
    → RulesOk is_digest rules
    → session.state.stopped ≡ false
    → StateOk is_digest session.state
    → (let answer = dispatch_turn rules turn h session in
        Recorded h session.state answer.0 answer.1.state)
unfolding dispatch_turn end_for_opt_out refuse_unsafe answer_abuse
dispatch_turn-Recorded is_digest rules turn h session good going ok =
    let s = session.state in
    elim (Bool-cases (has_signal opt_out h.signals)) [
      | inl out ↦ rw out (
          short-Recorded is_digest h opt_out_reply stop rules.rule_version true true
            s.abuse_redirected closed s refl (kept_abuse s.abuse_redirected) ok)
      | inr stays ↦ elim (Bool-cases (has_signal abuse h.signals)) [
        | inl abusive ↦
            rw (stays, abusive)
              (abuse_after-Recorded is_digest rules h s.abuse_redirected s going ok)
        | inr polite ↦
            elim (Bool-cases
              (has_signal internal_info h.signals || has_signal prompt_injection h.signals)) [
                | inl unsafe ↦
                    rw (stays, polite, unsafe)
                      (short-Recorded is_digest h unsafe_request redirect rules.rule_version false
                        s.stopped s.abuse_redirected s.phase s going (kept_abuse s.abuse_redirected)
                        ok)
                | inr safe ↦
                    rw (stays, polite, safe)
                      (converse-Recorded is_digest rules turn h session good going)
              ]
      ]
    ]
