-- ===== src/Conversation/Planning/Tests.antt =====
-- A buyer with a known business and an objection, for planning.py.
use pitch_bot.Prelude.{
  ◌<◌, ◌≡◌, ◌↔◌, refl, true, false, not, ◌&&◌, none, some, [], ◌∷◌, ltb, member,
}
use pitch_bot.Conversation.Language.{mixed}
use pitch_bot.Conversation.Planning.{
  Slot, requested_features, index_of, objecting, TurnUnderstanding, understanding_from_facts,
  vertical_of, is_ready, is_closing, first_slot, furthest, answerable, plan_reply, last_phrase,
  render_reply, objection_phrase, acknowledge_phrase, pitch_phrase, ask_phrase, business_type,
}
use pitch_bot.Conversation.Planning.Laws.{plan_reply_exact}

abbrev costly : TurnUnderstanding
costly =
    let facts =
      understanding_from_facts (λ key. true) ("business_type" ∷ []) ("business_type" ∷ [])
        (some "apparel") in
    record facts { intent = some objecting }

costly_answered : render_reply (plan_reply costly false (λ slot. 0) 2) mixed false false 0 0 ≡ (
  mixed,
  objection_phrase objecting
      ∷ acknowledge_phrase business_type
      ∷ pitch_phrase "apparel"
      ∷ ask_phrase requested_features
      ∷ [],
)
unfolding render_reply plan_reply understanding_from_facts vertical_of first_slot furthest
    answerable last_phrase member
costly_answered = refl

plan_reply_exact_example :
    (((plan_reply costly false (λ slot. 0) 2).asked ≡ some requested_features) ↔ (
      (is_ready costly.intent ≡ false)
      × (costly.known_slots requested_features ≡ false)
      × (0 < 2)
      × ((other : Slot)
          → index_of other < 1
          → (not (costly.known_slots other) && ltb 0 2) ≡ false)))
    × ((is_closing (plan_reply costly false (λ slot. 0) 2) ≡ true)
        ↔ ((plan_reply costly false (λ slot. 0) 2).asked ≡ none))
plan_reply_exact_example = plan_reply_exact costly false (λ slot. 0) 2 requested_features
