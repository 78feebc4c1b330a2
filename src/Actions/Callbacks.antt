-- ===== src/Actions/Callbacks.antt =====
-- The scheduled callbacks of a lead: `CallbackService` of src/pitchbot/actions/callbacks.py with the
-- types of src/pitchbot/actions/models.py. The state, and what its operations share.
-- A dict is an association list, a time is a number. What the service only calls is a field of
-- `CallbackConfig`: the JSON text of a request, the digits of a number, `str.strip` and
-- `str.startswith`; what an adapter answers is an argument. Scheduling, cancelling and dispatching
-- are cut at their call of an adapter into two, so that operations on other callbacks can come in
-- between, as the locks by callback id allow; the removals of Teardown are whole.
pub mod Schedule
pub mod Cancel
pub mod Dispatch
pub mod Teardown
pub mod Removal
pub mod Replay
pub mod Resend
pub mod Calls
mod Tests
use Prim.Native.String.{String, ◌++◌}
use pitch_bot.Prelude.{
  ◌≡◌, ◌↔◌, ℕ, ◌+◌, Bool, true, false, not, Option, none, some, List, [], ◌∷◌, Eq, nat_eq,
  string_eq, pair_eq, Dict, get, put, remove, from_keys, if◌then◌else◌,
}
use pitch_bot.Actions.Policy.{BlockReason, reason_eq, ActionAuthorizationContext}

pub data CallbackAgenda : Type 0 where
  website_discovery requirements_review proposal_review : CallbackAgenda

pub record CallbackRequest : Type 0 where
  pub lead_id : String
  pub callback_id : String
  pub run_at : ℕ
  pub timezone : String
  pub agenda : CallbackAgenda
  pub idempotency_key : String

pub data CallbackStatus : Type 0 where
  scheduled cancellation_pending cancellation_required canceled dispatched blocked : CallbackStatus

pub record CallbackRecord : Type 0 where
  pub request : CallbackRequest
  pub status : CallbackStatus
  pub provider_reference : Option String
  pub block_reasons : List BlockReason
  pub updated_at : ℕ

abbrev pub Fingerprint : Type 0
Fingerprint = String × String

pub record PendingSchedule : Type 0 where
  pub request : CallbackRequest
  pub context : ActionAuthorizationContext
  pub fingerprint : Fingerprint
  pub incarnation : ℕ

pub record CallbackConfig : Type 0 where
  pub model_dump_json : CallbackRequest → String
  pub show : ℕ → String
  pub is_blank : String → Bool
  pub starts_with : String → String → Bool
  pub max_callbacks : ℕ
  pub max_future : ℕ
  -- the scheduler is an `EphemeralOperationStore`
  pub ephemeral : Bool

pub record CallbackService : Type 0 where
  pub records : Dict String CallbackRecord
  pub operation_fingerprints : Dict String Fingerprint
  pub operation_results : Dict String CallbackRecord
  pub pending_schedules : Dict String PendingSchedule
  pub pending_cancellations : Dict String String
  pub pending_schedule_cancellations : Dict String String
  pub failed_cancellations : Dict String String
  pub callback_incarnations : Dict String ℕ
  pub cleanup_attempts : Dict (String × ℕ) ℕ
  pub incarnation_sequence : ℕ

abbrev pub new_service : CallbackService
new_service = record {
  records = [];
  operation_fingerprints = [];
  operation_results = [];
  pending_schedules = [];
  pending_cancellations = [];
  pending_schedule_cancellations = [];
  failed_cancellations = [];
  callback_incarnations = [];
  cleanup_attempts = [];
  incarnation_sequence = 0;
}

-- What an adapter's call comes to: a result with its reference, a `PermanentAdapterError`, or any
-- other error.
pub data Outcome : Type 0 where
  accepts : String → Outcome
  rejects breaks : Outcome

pub data CallbackError : Type 0 where
  conflict at_capacity not_found inconsistent empty_key missing_entry adapter_rejected
        adapter_broke :
      CallbackError

pub data Reply : Type 0 where
  returned : CallbackRecord → Reply
  raised : CallbackError → Reply

pub data Check : Type 0 where
  new_key : Check
  replays : CallbackRecord → Check
  refuses : CallbackError → Check

unfoldable pub same_fingerprint : Fingerprint → Fingerprint → Bool
same_fingerprint f g = pair_eq.beq f g

pub same_fingerprint_iff : (f g : Fingerprint) → (same_fingerprint f g ≡ true) ↔ (f ≡ g)
unfolding same_fingerprint
same_fingerprint_iff f g = pair_eq.beq_iff f g

unfoldable pub check_operation : String → Fingerprint → CallbackService → Check
check_operation key f s = elim (get key s.operation_fingerprints) [
  | none ↦ new_key
  | some previous ↦
      if not (same_fingerprint previous f)
      then refuses conflict
      else elim (get key s.failed_cancellations) [
        | some _ ↦ refuses conflict
        | none ↦ elim (get key s.operation_results) [
          | some r ↦ replays r
          | none ↦ refuses inconsistent
        ]
      ]
]

unfoldable pub store_operation :
    String → Fingerprint → CallbackRecord → CallbackService → CallbackService
store_operation key f r s = record s {
  operation_fingerprints = put key f s.operation_fingerprints;
  operation_results = put key r s.operation_results;
  records = put r.request.callback_id r s.records;
}

abbrev pub schedule_fingerprint : CallbackConfig → CallbackRequest → Fingerprint
schedule_fingerprint cfg req = ("schedule", cfg.model_dump_json req)

unfoldable pub blocked_reply :
    CallbackConfig
    → CallbackRequest
    → List BlockReason
    → ℕ
    → CallbackService
    → CallbackRecord × CallbackService
blocked_reply cfg req reasons now s =
    let r : CallbackRecord = record {
      request = req;
      status = blocked;
      provider_reference = none;
      block_reasons = from_keys reasons;
      updated_at = now;
    } in
    (r, store_operation req.idempotency_key (schedule_fingerprint cfg req) r s)

unfoldable pub next_cleanup_key :
    CallbackConfig → String → ℕ → CallbackService → String × CallbackService
next_cleanup_key cfg id incarnation s =
    let attempt : ℕ = elim (get (id, incarnation) s.cleanup_attempts) [
      | none ↦ 1
      | some n ↦ n + 1
    ] in
    (
      "cleanup:" ++ id ++ ":" ++ cfg.show incarnation ++ ":" ++ cfg.show attempt,
      record s { cleanup_attempts = put (id, incarnation) attempt s.cleanup_attempts },
    )

unfoldable pub record_failed_cancellation : String → String → CallbackService → CallbackService
record_failed_cancellation key id s = record s {
  operation_fingerprints = put key ("cancel", id) s.operation_fingerprints;
  failed_cancellations = put key id s.failed_cancellations;
}
