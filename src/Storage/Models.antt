-- ===== src/Storage/Models.antt =====
-- The tables of src/pitchbot/storage/models.py. A table is the list of its rows in the order of
-- their `sequence`, and the aggregates are a dict by their primary key. A UUID and a time are
-- numbers.
use Prim.Native.String.{String}
use pitch_bot.Prelude.{ℕ, Bool, true, false, Option, List, [], Dict}
use pitch_bot.Domain.Json.{JsonFields}

pub data PrivacyState : Type 0 where
  active anonymized hard_deleted : PrivacyState

pub record AggregateRecord : Type 0 where
  pub aggregate_type : String
  pub current_version : ℕ
  pub privacy_state : PrivacyState
  pub created_at : ℕ
  pub updated_at : ℕ

pub record EventRecord : Type 0 where
  pub event_id : ℕ
  pub aggregate_id : ℕ
  pub aggregate_type : String
  pub aggregate_version : ℕ
  pub event_type : String
  pub payload : JsonFields
  pub occurred_at : ℕ
  pub anonymized_at : Option ℕ

pub record SuppressionRecord : Type 0 where
  pub suppression_id : ℕ
  pub lead_id : ℕ
  pub channel : String
  pub suppressed : Bool
  pub reason : String
  pub occurred_at : ℕ

pub record PrivacyOperationRecord : Type 0 where
  pub operation_id : ℕ
  pub aggregate_id : ℕ
  pub operation : PrivacyState
  pub affected_event_count : ℕ
  pub occurred_at : ℕ

pub record Database : Type 0 where
  pub aggregates : Dict ℕ AggregateRecord
  pub events : List EventRecord
  pub suppressions : List SuppressionRecord
  pub operations : List PrivacyOperationRecord

abbrev pub empty_database : Database
empty_database = record { aggregates = []; events = []; suppressions = []; operations = [] }

abbrev pub is_active : PrivacyState → Bool
is_active s = elim s [ active ↦ true | _ ↦ false ]

abbrev pub is_hard_deleted : PrivacyState → Bool
is_hard_deleted s = elim s [ hard_deleted ↦ true | _ ↦ false ]
