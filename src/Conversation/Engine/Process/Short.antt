-- ===== src/Conversation/Engine/Process/Short.antt =====
-- The beginning of `process_turn` of src/pitchbot/conversation/engine.py, up to the signals, and its
-- answers to opt-outs, abuse and unsafe requests, with `_result`.
use pitch_bot.Prelude.{◌+◌, Bool, true, false, List, [], ◌∷◌, ◌++◌, member, string_eq, latest}
use pitch_bot.Domain.Facts.{Classification}
use pitch_bot.Conversation.Language.{LanguageCode, resolve_language}
use pitch_bot.Conversation.Planning.{table_of}
use pitch_bot.Conversation.State.{
  ConversationDisposition, redirect, stop, SafetySignal, closed, FixedReply, opt_out_reply,
  abuse_redirect, abuse_stop, unsafe_request, fixed, ConversationResult, ConversationState,
  digest_capacity,
}
use pitch_bot.Conversation.Classify.{classify}
use pitch_bot.Conversation.Engine.{TextRules, Turn}

-- what the branches of a turn share: the language, whether it has switched, and the repetition
pub record Heard : Type 0 where
  pub spoken : LanguageCode
  pub switched : Bool
  pub repeated : Bool
  pub signals : List SafetySignal

-- the beginning of a turn, up to the signals
unfoldable pub hear : TextRules → Bool → Turn → ConversationState → Heard × ConversationState
hear rules detects turn s =
    let reading = rules.detect_language turn.turn_text turn.transcribed_as in
    let resolved = resolve_language detects turn.declared reading s.language_state in
    let digest = rules.digest turn.turn_text in
    (
      record {
        spoken = resolved.0.0;
        switched = resolved.0.1;
        repeated = member digest s.recent_turn_digests;
        signals = rules.detect_safety_signals turn.turn_text;
      },
      record s {
        language_state = resolved.1;
        turn_count = s.turn_count + 1;
        recent_turn_digests = latest (digest_capacity s) (s.recent_turn_digests ++ digest ∷ []);
      },
    )

-- `_result` of a turn that is not talked further about
abbrev pub short_result :
    Heard
    → FixedReply
    → ConversationDisposition
    → Classification
    → ConversationState
    → ConversationResult
short_result h key disposition classification s = record {
  reply = fixed (table_of h.spoken) key;
  language = h.spoken;
  language_switched = h.switched;
  disposition = disposition;
  result_phase = s.phase;
  safety_signals = h.signals;
  facts = [];
  revisions = [];
  new_evidence = [];
  classification = classification;
  repeated_turn = h.repeated;
  result_turn_count = s.turn_count;
}

abbrev pub answer_shortly :
    Heard
    → FixedReply
    → ConversationDisposition
    → Classification × ConversationState
    → ConversationResult × ConversationState
answer_shortly h key disposition (c, s) = (short_result h key disposition c s, s)

unfoldable pub end_for_opt_out :
    TextRules → Heard → ConversationState → ConversationResult × ConversationState
end_for_opt_out rules h s =
    answer_shortly h opt_out_reply stop
      (classify rules.rule_version true (record s { stopped = true; phase = closed }))

-- the answer to abuse, when a warning was given and when not
abbrev pub answer_abuse_after :
    TextRules → Heard → Bool → ConversationState → ConversationResult × ConversationState
answer_abuse_after rules h true s =
    answer_shortly h abuse_stop stop
      (classify rules.rule_version false (record s { stopped = true; phase = closed }))
answer_abuse_after rules h false s =
    answer_shortly h abuse_redirect redirect
      (classify rules.rule_version false (record s { abuse_redirected = true }))

unfoldable pub answer_abuse :
    TextRules → Heard → ConversationState → ConversationResult × ConversationState
answer_abuse rules h s = answer_abuse_after rules h s.abuse_redirected s

unfoldable pub refuse_unsafe :
    TextRules → Heard → ConversationState → ConversationResult × ConversationState
refuse_unsafe rules h s =
    answer_shortly h unsafe_request redirect (classify rules.rule_version false s)
