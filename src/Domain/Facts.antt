-- ===== src/Domain/Facts.antt =====
-- What is known of a lead: src/pitchbot/domain/models.py. Spans, confidences, reasons and times, which
-- no modelled operation reads, are left out; an identifier is a number. A weight is a float that is
-- written as a number of hundredths, up or down; a score and a confidence are floats, in steps of
-- 2 ^ -64.
use pitch_bot.Prelude.{String, ℕ, Bool, Option, List}
use pitch_bot.Domain.Json.{JsonValue}
use pitch_bot.Actions.Policy.{LeadTemperature}

pub record RequirementFact : Type 0 where
  pub fact_id : ℕ
  pub lead_id : ℕ
  pub key : String
  pub value : JsonValue

pub record RequirementRevision : Type 0 where
  pub revision_id : ℕ
  pub lead_id : ℕ
  pub key : String
  pub previous_fact_id : Option ℕ
  pub replacement_fact_id : ℕ
  pub confirmed_by_customer : Bool

pub data Weight : Type 0 where
  up down : ℕ → Weight

pub record IntentEvidence : Type 0 where
  pub evidence_id : ℕ
  pub lead_id : ℕ
  pub dimension : String
  pub weight : Weight

pub record Classification : Type 0 where
  pub lead_id : ℕ
  pub temperature : LeadTemperature
  pub score : ℕ
  pub confidence : ℕ
  pub evidence_ids : List ℕ
  pub counter_evidence_ids : List ℕ
  pub rule_version : String
