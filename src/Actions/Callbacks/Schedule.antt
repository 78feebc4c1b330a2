-- ===== src/Actions/Callbacks/Schedule.antt =====
-- `CallbackService._schedule` of src/pitchbot/actions/callbacks.py, up to the call of the scheduler
-- and after it.
use Prim.Native.String.{String}
use pitch_bot.Prelude.{
  ℕ, ◌+◌, Bool, true, false, not, ◌||◌, ◌&&◌, Option, none, some, List, [], ◌∷◌, ◌++◌, leb, ltb,
  length, nat_eq, string_eq, pair_eq, Dict, get, put, remove, member, from_keys, if◌then◌else◌,
}
use pitch_bot.Actions.Policy.{
  BlockReason, ActionAuthorizationContext, callback_schedule, callback_time_invalid, authorize,
}
use pitch_bot.Actions.Callbacks.{
  CallbackRequest, CallbackStatus, scheduled, cancellation_pending, cancellation_required,
  CallbackRecord, PendingSchedule, CallbackConfig, CallbackService, Outcome, accepts, rejects,
  breaks, conflict, at_capacity, adapter_rejected, adapter_broke, Reply, returned, raised, Check,
  new_key, replays, refuses, same_fingerprint, check_operation, store_operation,
  schedule_fingerprint, blocked_reply,
}

-- the statuses that hold a place of the capacity
abbrev pub is_active : CallbackStatus → Bool
is_active st = elim st [
  | scheduled ↦ true
  | cancellation_pending ↦ true
  | cancellation_required ↦ true
  | _ ↦ false
]

unfoldable pub active_records : Dict String CallbackRecord → List String
active_records [] = []
active_records ((id, r) ∷ d) =
    let rest = active_records d in if is_active r.status then r.request.callback_id ∷ rest else rest

unfoldable pub pending_ids : Dict String PendingSchedule → List String
pending_ids [] = []
pending_ids ((key, p) ∷ d) = p.request.callback_id ∷ pending_ids d

unfoldable pub active_callback_ids : CallbackService → List String
active_callback_ids s = from_keys (active_records s.records ++ pending_ids s.pending_schedules)

abbrev pub existing_active : String → CallbackService → Bool
existing_active id s = elim (get id s.records) [ none ↦ false | some r ↦ is_active r.status ]

abbrev pub time_invalid : CallbackConfig → CallbackRequest → ℕ → Bool
time_invalid cfg req now = leb req.run_at now || ltb (now + cfg.max_future) req.run_at

abbrev pub over_capacity : CallbackConfig → CallbackRequest → CallbackService → Bool
over_capacity cfg req s =
    let active = active_callback_ids s in
    not (member req.callback_id active) && leb cfg.max_callbacks (length active)

-- the two conflicts of an id that is in use
abbrev pub taken : CallbackRequest → CallbackService → Bool
taken req s = existing_active req.callback_id s || member req.callback_id (active_callback_ids s)

-- what comes before the scheduler is called: an answer, or the call
pub data Begun : Type 0 where
  answers : Reply → Begun
  calls : PendingSchedule → Begun

-- the request is blocked for the reasons that the policy found, or becomes pending
unfoldable pub admit_on :
    CallbackConfig
    → CallbackRequest
    → ActionAuthorizationContext
    → ℕ
    → CallbackService
    → List BlockReason
    → Begun × CallbackService
admit_on cfg req context now s (x ∷ xs) =
    let out = blocked_reply cfg req (x ∷ xs) now s in (answers (returned out.0), out.1)
admit_on cfg req context now s [] =
    let pending : PendingSchedule = record {
      request = req;
      context = context;
      fingerprint = schedule_fingerprint cfg req;
      incarnation = s.incarnation_sequence + 1;
    } in
    (
      calls pending,
      record s {
        incarnation_sequence = s.incarnation_sequence + 1;
        pending_schedules = put req.idempotency_key pending s.pending_schedules;
      },
    )

-- a request whose key has no pending schedule
unfoldable pub schedule_new :
    CallbackConfig
    → CallbackRequest
    → ActionAuthorizationContext
    → ℕ
    → CallbackService
    → Begun × CallbackService
schedule_new cfg req context now s =
    if time_invalid cfg req now
    then (let out = blocked_reply cfg req (callback_time_invalid ∷ []) now s in
        (answers (returned out.0), out.1))
    else if over_capacity cfg req s
    then (answers (raised at_capacity), s)
    else if taken req s
    then (answers (raised conflict), s)
    else admit_on cfg req context now s (authorize callback_schedule context now).reasons

-- by the schedule that is pending under the key
unfoldable pub begin_on_pending :
    CallbackConfig
    → CallbackRequest
    → ActionAuthorizationContext
    → ℕ
    → CallbackService
    → Option PendingSchedule
    → Begun × CallbackService
begin_on_pending cfg req context now s none = schedule_new cfg req context now s
begin_on_pending cfg req context now s (some pending) =
    if not (same_fingerprint pending.fingerprint (schedule_fingerprint cfg req))
    then (answers (raised conflict), s)
    else (calls pending, s)

-- by what the idempotency key stands for
unfoldable pub begin_on :
    CallbackConfig
    → CallbackRequest
    → ActionAuthorizationContext
    → ℕ
    → CallbackService
    → Check
    → Begun × CallbackService
begin_on cfg req context now s (replays r) = (answers (returned r), s)
begin_on cfg req context now s (refuses e) = (answers (raised e), s)
begin_on cfg req context now s new_key =
    begin_on_pending cfg req context now s (get req.idempotency_key s.pending_schedules)

unfoldable pub schedule_begin :
    CallbackConfig
    → CallbackRequest
    → ActionAuthorizationContext
    → ℕ
    → CallbackService
    → Begun × CallbackService
schedule_begin cfg req context now s =
    begin_on cfg req context now s
      (check_operation req.idempotency_key (schedule_fingerprint cfg req) s)

unfoldable pub schedule_settle :
    CallbackConfig
    → CallbackRequest
    → PendingSchedule
    → Outcome
    → ℕ
    → CallbackService
    → Reply × CallbackService
schedule_settle cfg req pending rejects now s = (
  raised adapter_rejected,
  record s { pending_schedules = remove req.idempotency_key s.pending_schedules },
)
schedule_settle cfg req pending breaks now s = (raised adapter_broke, s)
schedule_settle cfg req pending (accepts reference) now s =
    let r : CallbackRecord = record {
      request = req;
      status = scheduled;
      provider_reference = some reference;
      block_reasons = [];
      updated_at = now;
    } in
    (
      returned r,
      store_operation req.idempotency_key (schedule_fingerprint cfg req) r (record s {
        pending_schedules = remove req.idempotency_key s.pending_schedules;
        callback_incarnations = put req.callback_id pending.incarnation s.callback_incarnations;
      }),
    )

unfoldable pub schedule_after :
    CallbackConfig
    → CallbackRequest
    → Outcome
    → ℕ
    → Begun × CallbackService
    → Reply × CallbackService
schedule_after cfg req outcome later (answers reply, s) = (reply, s)
schedule_after cfg req outcome later (calls pending, s) =
    schedule_settle cfg req pending outcome later s

-- the whole call, when no other operation comes in while the scheduler answers
unfoldable pub schedule :
    CallbackConfig
    → CallbackRequest
    → ActionAuthorizationContext
    → ℕ
    → Outcome
    → ℕ
    → CallbackService
    → Reply × CallbackService
schedule cfg req context now outcome later s =
    schedule_after cfg req outcome later (schedule_begin cfg req context now s)
