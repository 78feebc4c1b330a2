-- ===== src/Actions/Callbacks/Cancel.antt =====
-- `CallbackService._cancel` of src/pitchbot/actions/callbacks.py, up to the call of the scheduler and
-- after it.
use Prim.Native.String.{String}
use pitch_bot.Prelude.{
  ℕ, Bool, false, not, Option, none, some, nat_eq, string_eq, pair_eq, get, put, remove,
  if◌then◌else◌,
}
use pitch_bot.Actions.Callbacks.{
  CallbackStatus, scheduled, cancellation_pending, cancellation_required, canceled, CallbackRecord,
  CallbackConfig, CallbackService, Outcome, accepts, rejects, breaks, conflict, not_found,
  empty_key, adapter_rejected, adapter_broke, Reply, returned, raised, new_key, replays, refuses,
  check_operation, store_operation, record_failed_cancellation,
}

-- The record with a new status, the time and, when it is given, the reference
abbrev pub with_status : CallbackStatus → ℕ → CallbackRecord → CallbackRecord
with_status st now r = record r { status = st; updated_at = now }

abbrev pub same_key : Option String → String → Bool
same_key none key = false
same_key (some k) key = string_eq.beq k key

-- what comes before the scheduler is called: an answer, or the call for the record as it was read
pub data Begun : Type 0 where
  answers : Reply → Begun
  calls : CallbackRecord → Begun

-- the record is marked, and the key of its cancellation kept
unfoldable pub mark_pending :
    String → String → CallbackRecord → ℕ → CallbackService → CallbackService
mark_pending id key r now s = record s {
  records = put id (with_status cancellation_pending now r) s.records;
  pending_cancellations = put id key s.pending_cancellations;
}

unfoldable pub cancel_existing :
    String → String → CallbackRecord → ℕ → CallbackService → Begun × CallbackService
cancel_existing id key existing now s = elim existing.status [
  | cancellation_pending ↦
      if not (same_key (get id s.pending_cancellations) key)
      then (answers (raised conflict), s)
      else (calls existing, s)
  | scheduled ↦ (calls existing, mark_pending id key existing now s)
  | cancellation_required ↦ (calls existing, mark_pending id key existing now s)
  | _ ↦ (answers (raised conflict), s)
]

unfoldable pub cancel_begin :
    CallbackConfig → String → String → ℕ → CallbackService → Begun × CallbackService
cancel_begin cfg id key now s =
    if cfg.is_blank key
    then (answers (raised empty_key), s)
    else elim (check_operation key ("cancel", id) s) [
      | replays r ↦ (answers (returned r), s)
      | refuses e ↦ (answers (raised e), s)
      | new_key ↦ elim (get id s.records) [
        | none ↦ (answers (raised not_found), s)
        | some existing ↦ cancel_existing id key existing now s
      ]
    ]

-- the scheduler has rejected the cancellation of the record that was read
unfoldable pub cancel_rejected :
    String → String → CallbackRecord → ℕ → CallbackService → CallbackService
cancel_rejected id key existing now s = record_failed_cancellation key id (record s {
  records = put id (with_status cancellation_required now existing) s.records;
  pending_cancellations = remove id s.pending_cancellations;
})

unfoldable pub cancel_settle :
    String → String → CallbackRecord → Outcome → ℕ → CallbackService → Reply × CallbackService
cancel_settle id key existing rejects now s =
    (raised adapter_rejected, cancel_rejected id key existing now s)
cancel_settle id key existing breaks now s = (raised adapter_broke, s)
cancel_settle id key existing (accepts reference) now s =
    let r = record (with_status canceled now existing) { provider_reference = some reference } in
    (
      returned r,
      store_operation key ("cancel", id) r
          (record s { pending_cancellations = remove id s.pending_cancellations }),
    )

unfoldable pub cancel :
    CallbackConfig → String → String → ℕ → Outcome → ℕ → CallbackService → Reply × CallbackService
cancel cfg id key now outcome later s =
    let begun = cancel_begin cfg id key now s in
    elim (begun.0) [
      | answers reply ↦ (reply, begun.1)
      | calls existing ↦ cancel_settle id key existing outcome later begun.1
    ]
