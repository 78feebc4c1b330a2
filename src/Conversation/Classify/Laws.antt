-- ===== src/Conversation/Classify/Laws.antt =====
-- When a lead is rated what.
use pitch_bot.Prelude.{
  ℕ, ◌≡◌, refl, arith, Bool, true, false, ◌&&◌, Float, above, below, hundredths, rounded,
  exponent_of, float_add, float_sum, at_most, unit_part, List, [], ◌∷◌, leb, Bool-cases, inl, inr,
  if◌then◌else◌,
}
use pitch_bot.Actions.Policy.{LeadTemperature, hot, warm, cold, review_needed}
use pitch_bot.Domain.Facts.{IntentEvidence}
use pitch_bot.Conversation.Classify.{
  raw_score, score_of, distinct_dimensions, is_empty, refused, temperature_of,
}

-- the rating by the score and the number of dimensions alone, once there is evidence
abbrev pub by_score : Bool → ℕ → ℕ → LeadTemperature
by_score blank score dimensions =
    if blank
    then review_needed
    else if leb (hundredths 75) score && leb 2 dimensions
    then hot
    else if leb (hundredths 45) score
    then warm
    else cold

-- a sum at or below -0.40 leaves nothing of the base score
clipped :
    (r : Float)
    → at_most r (below (hundredths 40)) ≡ true
    → unit_part (float_add (above (hundredths 35)) r) ≡ 0
unfolding float_add hundredths rounded exponent_of
clipped (above n) h = absurd (ground (arith, h))
clipped (below n) h = ground (arith, h)

refused-score : (items : List IntentEvidence) → refused items ≡ true → score_of items ≡ 0
unfolding score_of
refused-score items h = clipped (raw_score items) h

refused_nonempty : (items : List IntentEvidence) → refused items ≡ true → is_empty items ≡ false
unfolding raw_score float_sum hundredths rounded exponent_of
refused_nonempty [] h = absurd (ground (arith, h))
refused_nonempty (item ∷ items) h = refl

-- The floor for a lead who said no changes no rating: one who is not forced cold is rated by the score
-- and the dimensions alone, and one without evidence is left for review.
pub rating_exact :
    (items : List IntentEvidence)
    → temperature_of false items
      ≡ by_score (is_empty items) (score_of items) (distinct_dimensions items)
unfolding temperature_of hundredths rounded exponent_of
rating_exact items = elim (Bool-cases (refused items)) [
  | inl refuses ↦ rw (refuses, refused_nonempty items refuses, refused-score items refuses) refl
  | inr on ↦ rw on refl
]
