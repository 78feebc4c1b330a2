-- ===== src/Conversation/Classify/Tests.antt =====
-- A lead who said no, after some interest.
use pitch_bot.Prelude.{
  String, ℕ, ◌≡◌, refl, false, List, [], ◌∷◌, map, below, hundredths, rounded, exponent_of,
  float_add, float_sum, sum_from,
}
use pitch_bot.Actions.Policy.{cold}
use pitch_bot.Domain.Facts.{IntentEvidence, Weight, up, down}
use pitch_bot.Conversation.Classify.{
  value_of, raw_score, score_of, distinct_dimensions, is_empty, temperature_of,
}
use pitch_bot.Conversation.Classify.Laws.{by_score, rating_exact}

abbrev item_of : ℕ → String → Weight → IntentEvidence
item_of n dimension weight = record {
  evidence_id = n;
  lead_id = 7;
  dimension = dimension;
  weight = weight;
}

abbrev items : List IntentEvidence
items = item_of 1 "budget" (up 20) ∷ item_of 2 "interest" (down 70) ∷ []

rating_exact_example :
    temperature_of false items
    ≡ by_score (is_empty items) (score_of items) (distinct_dimensions items)
rating_exact_example = rating_exact items

-- 0.35 + 0.10 is 0.44999999999999996, below 0.45
abbrev nearly_warm : List IntentEvidence
nearly_warm =
    item_of 1 "requirement" (up 15)
    ∷ item_of 2 "budget" (up 25)
    ∷ item_of 3 "next-step" (up 20)
    ∷ item_of 4 "no-need" (down 50)
    ∷ []

nearly_warm_cold : temperature_of false nearly_warm ≡ cold
unfolding temperature_of score_of raw_score float_sum sum_from float_add hundredths rounded
    exponent_of
nearly_warm_cold = refl

nearly_warm_score : score_of nearly_warm ≡ 8301034833169297408
unfolding score_of raw_score float_sum sum_from float_add hundredths rounded exponent_of
nearly_warm_score = refl

-- what the rounding loses is added at the end, and is lost again in part
raw_score_rounds :
    float_sum (map value_of (up 15 ∷ up 20 ∷ up 25 ∷ up 15 ∷ down 50 ∷ up 15 ∷ down 50 ∷ []))
    ≡ below 1844674407370955264
unfolding float_sum sum_from float_add hundredths rounded exponent_of
raw_score_rounds = refl
