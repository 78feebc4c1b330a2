-- ===== src/Conversation/Classify.antt =====
-- How a lead is rated: `ConversationEngine._classify` and `_phase_for` of
-- src/pitchbot/conversation/engine.py. Scores and confidences are floats, in steps of 2 ^ -64, and
-- sums and products are rounded as Python rounds them.
pub mod Laws
mod Tests
use pitch_bot.Prelude.{
  String, ℕ, ◌+◌, ◌-◌, ◌*◌, Bool, true, false, not, ◌&&◌, ◌||◌, List, [], ◌∷◌, ◌++◌, map, length,
  min, Float, above, below, hundredths, rounded, float_add, float_sum, at_most, unit_part, leb, ltb,
  ◌==◌, latest, from_keys, string_eq, if◌then◌else◌,
}
use pitch_bot.Actions.Policy.{LeadTemperature, hot, warm, cold, review_needed}
use pitch_bot.Domain.Facts.{Weight, up, down, IntentEvidence, Classification}
use pitch_bot.Conversation.State.{
  ConversationState, ConversationPhase, discovery, qualification, next_step,
}

abbrev pub up_part : Weight → ℕ
up_part (up n) = n
up_part (down n) = 0

abbrev pub down_part : Weight → ℕ
down_part (up n) = 0
down_part (down n) = n

abbrev pub value_of : Weight → Float
value_of (up n) = above (hundredths n)
value_of (down n) = below (hundredths n)

-- sum(weights)
unfoldable pub raw_score : List IntentEvidence → Float
raw_score items = float_sum (map (λ item. value_of item.weight) items)

-- min(1.0, max(0.0, 0.35 + raw_score))
unfoldable pub score_of : List IntentEvidence → ℕ
score_of items = unit_part (float_add (above (hundredths 35)) (raw_score items))

-- len({item.dimension for item in items})
unfoldable pub distinct_dimensions : List IntentEvidence → ℕ
distinct_dimensions items = length (from_keys (map (λ item. item.dimension) items))

abbrev pub is_empty : List IntentEvidence → Bool
is_empty [] = true
is_empty (item ∷ items) = false

-- raw_score <= -0.4
abbrev pub refused : List IntentEvidence → Bool
refused items = at_most (raw_score items) (below (hundredths 40))

unfoldable pub temperature_of : Bool → List IntentEvidence → LeadTemperature
temperature_of force_cold items =
    let score = if force_cold then 0 else score_of items in
    if force_cold || refused items
    then cold
    else if is_empty items
    then review_needed
    else if leb (hundredths 75) score && leb 2 (distinct_dimensions items)
    then hot
    else if leb (hundredths 45) score
    then warm
    else cold

unfoldable pub confidence_of : List IntentEvidence → ℕ
confidence_of items =
    if is_empty items
    then hundredths 25
    else min (hundredths 95)
        (rounded (hundredths 35 + rounded (distinct_dimensions items * hundredths 15) 1) 1)

unfoldable pub ids_up : List IntentEvidence → List ℕ
ids_up [] = []
ids_up (item ∷ items) =
    let rest = ids_up items in if ltb 0 (up_part item.weight) then item.evidence_id ∷ rest else rest

unfoldable pub ids_down : List IntentEvidence → List ℕ
ids_down [] = []
ids_down (item ∷ items) =
    let rest = ids_down items in
    if ltb 0 (down_part item.weight) then item.evidence_id ∷ rest else rest

unfoldable pub classification_of : String → Bool → ConversationState → Classification
classification_of rule_version force_cold s = record {
  lead_id = s.lead_id;
  temperature = temperature_of force_cold s.evidence;
  score = if force_cold then 0 else score_of s.evidence;
  confidence = confidence_of s.evidence;
  evidence_ids = ids_up s.evidence;
  counter_evidence_ids = ids_down s.evidence;
  rule_version = rule_version;
}

unfoldable pub classify : String → Bool → ConversationState → Classification × ConversationState
classify rule_version force_cold s =
    let c = classification_of rule_version force_cold s in
    (c, record s { classifications = latest s.max_classifications (s.classifications ++ c ∷ []) })

unfoldable pub phase_for : Classification → ConversationPhase
phase_for c = elim c.temperature [ hot ↦ next_step | warm ↦ qualification | _ ↦ discovery ]
