-- ===== src/Actions/Callbacks/Teardown.antt =====
-- The end of a session: `_remove_pending_schedule`, `_remove_record` and
-- `_release_failed_cancellations` of src/pitchbot/actions/callbacks.py. An error is `none` when the
-- method returns. `missing_entry` is Python's `KeyError`.
use Prim.Native.String.{String}
use pitch_bot.Prelude.{
  ℕ, not, ◌&&◌, Option, none, some, List, [], ◌∷◌, ◌++◌, nat_eq, string_eq, pair_eq, Dict, get, put,
  remove, member, if◌then◌else◌,
}
use pitch_bot.Actions.Callbacks.{
  CallbackStatus, scheduled, cancellation_pending, cancellation_required, canceled, dispatched,
  blocked, CallbackRecord, PendingSchedule, CallbackConfig, CallbackService, Outcome, accepts,
  rejects, breaks, CallbackError, missing_entry, adapter_rejected, adapter_broke, next_cleanup_key,
  record_failed_cancellation,
}
use pitch_bot.Actions.Callbacks.Schedule.{pending_ids}
use pitch_bot.Actions.Callbacks.Cancel.{mark_pending, cancel_rejected}

-- the keys whose result is about the callback
unfoldable pub operation_keys : String → Dict String CallbackRecord → List String
operation_keys id [] = []
operation_keys id ((key, r) ∷ d) =
    let rest = operation_keys id d in
    if string_eq.beq r.request.callback_id id then key ∷ rest else rest

unfoldable pub remove_all {κ} : {V : Type κ} → List String → Dict String V → Dict String V
remove_all [] d = d
remove_all (key ∷ keys) d = remove_all keys (remove key d)

abbrev pub forget_attempts : String → Option ℕ → Dict (String × ℕ) ℕ → Dict (String × ℕ) ℕ
forget_attempts id none d = d
forget_attempts id (some incarnation) d = remove (id, incarnation) d

-- the end of `_remove_record`: nothing of the callback is kept
unfoldable pub forget_callback : String → CallbackService → CallbackService
forget_callback id s =
    let keys = operation_keys id s.operation_results in
    record s {
      pending_cancellations = remove id s.pending_cancellations;
      operation_fingerprints = remove_all keys s.operation_fingerprints;
      operation_results = remove_all keys s.operation_results;
      cleanup_attempts = forget_attempts id (get id s.callback_incarnations) s.cleanup_attempts;
      callback_incarnations = remove id s.callback_incarnations;
      records = remove id s.records;
    }

unfoldable pub settle_removal :
    String
    → String
    → CallbackRecord
    → Outcome
    → ℕ
    → CallbackService
    → Option CallbackError × CallbackService
settle_removal id key r (accepts reference) now s = (none, forget_callback id s)
settle_removal id key r rejects now s = (some adapter_rejected, cancel_rejected id key r now s)
settle_removal id key r breaks now s = (some adapter_broke, s)

-- a callback that the scheduler may still hold
unfoldable pub remove_scheduled :
    CallbackConfig
    → String
    → CallbackRecord
    → Outcome
    → ℕ
    → CallbackService
    → Option CallbackError × CallbackService
remove_scheduled cfg id r outcome now s = elim (get id s.callback_incarnations) [
  | none ↦ (some missing_entry, s)
  | some incarnation ↦
      let key = next_cleanup_key cfg id incarnation s in
      settle_removal id key.0 r outcome now (mark_pending id key.0 r now key.1)
]

unfoldable pub settle_ephemeral :
    String → Outcome → CallbackService → Option CallbackError × CallbackService
settle_ephemeral id (accepts reference) s = (none, forget_callback id s)
settle_ephemeral id rejects s = (some adapter_rejected, s)
settle_ephemeral id breaks s = (some adapter_broke, s)

-- a callback that was dialled, of which only a scheduler that keeps operations in memory is told
unfoldable pub remove_dispatched :
    CallbackConfig → String → Outcome → CallbackService → Option CallbackError × CallbackService
remove_dispatched cfg id outcome s =
    if cfg.ephemeral
    then (elim (get id s.callback_incarnations) [
      | none ↦ (some missing_entry, s)
      | some incarnation ↦ settle_ephemeral id outcome (next_cleanup_key cfg id incarnation s).1
    ])
    else (none, forget_callback id s)

unfoldable pub remove_by_status :
    CallbackConfig
    → String
    → CallbackRecord
    → Outcome
    → ℕ
    → CallbackService
    → CallbackStatus
    → Option CallbackError × CallbackService
remove_by_status cfg id r outcome now s scheduled = remove_scheduled cfg id r outcome now s
remove_by_status cfg id r outcome now s cancellation_required =
    remove_scheduled cfg id r outcome now s
remove_by_status cfg id r outcome now s cancellation_pending =
    elim (get id s.pending_cancellations) [
      | none ↦ (some missing_entry, s)
      | some key ↦ settle_removal id key r outcome now s
    ]
remove_by_status cfg id r outcome now s dispatched = remove_dispatched cfg id outcome s
remove_by_status cfg id r outcome now s canceled = (none, forget_callback id s)
remove_by_status cfg id r outcome now s blocked = (none, forget_callback id s)

unfoldable pub remove_record :
    CallbackConfig → String → Outcome → ℕ → CallbackService → Option CallbackError × CallbackService
remove_record cfg id outcome now s = elim (get id s.records) [
  | none ↦ (none, s)
  | some r ↦ remove_by_status cfg id r outcome now s r.status
]

unfoldable pub settle_pending_removal :
    String
    → String
    → PendingSchedule
    → Outcome
    → CallbackService
    → Option CallbackError × CallbackService
settle_pending_removal key cancellation_key pending (accepts reference) s = (
  none,
  record s {
    pending_schedules = remove key s.pending_schedules;
    pending_schedule_cancellations = remove key s.pending_schedule_cancellations;
    cleanup_attempts = remove (pending.request.callback_id, pending.incarnation) s.cleanup_attempts;
  },
)
settle_pending_removal key cancellation_key pending rejects s = (
  some adapter_rejected,
  record_failed_cancellation cancellation_key pending.request.callback_id
      (record s { pending_schedule_cancellations = remove key s.pending_schedule_cancellations }),
)
settle_pending_removal key cancellation_key pending breaks s = (some adapter_broke, s)

-- the key of the cancellation, made when there is none yet
unfoldable pub cancellation_key_for :
    CallbackConfig → String → PendingSchedule → CallbackService → String × CallbackService
cancellation_key_for cfg key pending s = elim (get key s.pending_schedule_cancellations) [
  | some known ↦ (known, s)
  | none ↦
      let made = next_cleanup_key cfg pending.request.callback_id pending.incarnation s in
      (
        made.0,
        record made.1 {
          pending_schedule_cancellations = put key made.0 made.1.pending_schedule_cancellations;
        },
      )
]

unfoldable pub remove_pending_schedule :
    CallbackConfig → String → Outcome → CallbackService → Option CallbackError × CallbackService
remove_pending_schedule cfg key outcome s = elim (get key s.pending_schedules) [
  | none ↦ (none, s)
  | some pending ↦
      let found = cancellation_key_for cfg key pending s in
      settle_pending_removal key found.0 pending outcome found.1
]

unfoldable pub keys_of {κ} : {V : Type κ} → Dict String V → List String
keys_of [] = []
keys_of ((key, v) ∷ d) = key ∷ keys_of d

-- the tombstones of callbacks of the session that no live dict has
unfoldable pub reclaimable :
    CallbackConfig → String → List String → Dict String String → List String
reclaimable cfg prefix live [] = []
reclaimable cfg prefix live ((key, id) ∷ d) =
    let rest = reclaimable cfg prefix live d in
    if cfg.starts_with id prefix && not (member id live) then key ∷ rest else rest

unfoldable pub release_failed_cancellations :
    CallbackConfig → String → CallbackService → CallbackService
release_failed_cancellations cfg prefix s =
    let live = keys_of s.records ++ pending_ids s.pending_schedules in
    let keys = reclaimable cfg prefix live s.failed_cancellations in
    record s {
      failed_cancellations = remove_all keys s.failed_cancellations;
      operation_fingerprints = remove_all keys s.operation_fingerprints;
      operation_results = remove_all keys s.operation_results;
    }
