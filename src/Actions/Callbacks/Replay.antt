-- ===== src/Actions/Callbacks/Replay.antt =====
-- What a schedule leaves under its key, and another request under the same key:
-- src/pitchbot/actions/callbacks.py.
use Prim.Native.String.{String}
use pitch_bot.Prelude.{
  ℕ, not, Option, none, some, List, [], ◌∷◌, ◌≡◌, ◌≢◌, ◌↔◌, refl, ap, arith, nat_eq, string_eq,
  pair_eq, get, get-put, beq_refl, if◌then◌else◌, if_holds,
}
use pitch_bot.Actions.Policy.{
  BlockReason, callback_time_invalid, ActionAuthorizationContext, callback_schedule, authorize,
}
use pitch_bot.Actions.Callbacks.{
  CallbackRequest, CallbackRecord, PendingSchedule, CallbackConfig, CallbackService, Fingerprint,
  Outcome, accepts, rejects, breaks, CallbackError, conflict, at_capacity, Reply, returned, raised,
  Check, new_key, replays, refuses, same_fingerprint, same_fingerprint_iff, check_operation,
  store_operation, schedule_fingerprint, blocked_reply,
}
use pitch_bot.Actions.Callbacks.Schedule.{
  time_invalid, over_capacity, taken, Begun, answers, calls, admit_on, begin_on, begin_on_pending,
  schedule_after, schedule_new, schedule_begin, schedule_settle, schedule,
}

abbrev Clear : String → CallbackService → Type 0
Clear key s = get key s.failed_cancellations ≡ none

-- The key stands for this request and its answer.
pub record Kept (key : String) (f : Fingerprint) (r : CallbackRecord) (s : CallbackService)
    : Type 0 where
  pub fingerprint : get key s.operation_fingerprints ≡ some f
  pub result : get key s.operation_results ≡ some r
  pub not_failed : get key s.failed_cancellations ≡ none

pub Kept-replays :
    (key : String) (f : Fingerprint) (r : CallbackRecord) (s : CallbackService)
    → (check_operation key f s ≡ replays r) ↔ Kept key f r s
unfolding check_operation
Kept-replays key f r s = grind (arith, same_fingerprint_iff)

pub check-refuses :
    (key : String) (f g : Fingerprint) (r : CallbackRecord) (s : CallbackService)
    → Kept key f r s
    → f ≢ g
    → check_operation key g s ≡ refuses conflict
unfolding check_operation
check-refuses key f g r s k h = ground (arith, same_fingerprint_iff f g)

store_operation-Kept :
    (key : String) (f : Fingerprint) (r : CallbackRecord) (s : CallbackService)
    → get key s.failed_cancellations ≡ none
    → Kept key f r (store_operation key f r s)
unfolding store_operation
store_operation-Kept key f r s h = record {
  fingerprint = simp (get-put, beq_refl key);
  result = simp (get-put, beq_refl key);
  not_failed = h;
}

module _ (cfg : CallbackConfig) (req : CallbackRequest) where
  abbrev key : String
  key = req.idempotency_key

  abbrev fp : Fingerprint
  fp = schedule_fingerprint cfg req

  -- What a call leaves: when it returns, the key stands for the request and the answer.
  abbrev Stored : Reply × CallbackService → Type 0
  Stored (returned r, s) = Kept key fp r s
  Stored (raised e, s) = Clear key s

  unfoldable Begins : Begun × CallbackService → Type 0
  Begins (answers reply, s) = Stored (reply, s)
  Begins (calls pending, s) = Clear key s

  raised-Begins :
      (e : CallbackError) (s : CallbackService) → Clear key s → Begins (answers (raised e), s)
  unfolding Begins
  raised-Begins e s h = h

  blocked-Begins :
      (reasons : List BlockReason) (now : ℕ) (s : CallbackService)
      → Clear key s
      → let out = blocked_reply cfg req reasons now s in Begins (answers (returned out.0), out.1)
  unfolding Begins blocked_reply
  blocked-Begins reasons now s h =
      store_operation-Kept key fp (blocked_reply cfg req reasons now s).0 s h

  admit_on-Begins :
      (context : ActionAuthorizationContext) (now : ℕ) (s : CallbackService)
      (reasons : List BlockReason)
      → Clear key s
      → Begins (admit_on cfg req context now s reasons)
  unfolding admit_on Begins
  admit_on-Begins context now s [] h = h
  admit_on-Begins context now s (x ∷ xs) h = blocked-Begins (x ∷ xs) now s h

  schedule_new-Begins :
      (context : ActionAuthorizationContext) (now : ℕ) (s : CallbackService)
      → Clear key s
      → Begins (schedule_new cfg req context now s)
  unfolding schedule_new
  schedule_new-Begins context now s h =
      let rest = admit_on cfg req context now s (authorize callback_schedule context now).reasons in
      let free = if taken req s then (answers (raised conflict), s) else rest in
      let room = if over_capacity cfg req s then (answers (raised at_capacity), s) else free in
      let out = blocked_reply cfg req (callback_time_invalid ∷ []) now s in
      if_holds Begins (time_invalid cfg req now) (answers (returned out.0), out.1) room
        (blocked-Begins (callback_time_invalid ∷ []) now s h)
        (if_holds Begins (over_capacity cfg req s) (answers (raised at_capacity), s) free
          (raised-Begins at_capacity s h)
          (if_holds Begins (taken req s) (answers (raised conflict), s) rest
            (raised-Begins conflict s h)
            (admit_on-Begins context now s (authorize callback_schedule context now).reasons h)))

  begin_on_pending-Begins :
      (context : ActionAuthorizationContext) (now : ℕ) (s : CallbackService)
      (p : Option PendingSchedule)
      → Clear key s
      → Begins (begin_on_pending cfg req context now s p)
  unfolding begin_on_pending Begins
  begin_on_pending-Begins context now s none h = schedule_new-Begins context now s h
  begin_on_pending-Begins context now s (some p) h =
      if_holds Begins (not (same_fingerprint p.fingerprint fp)) (answers (raised conflict), s)
        (calls p, s) (raised-Begins conflict s h) h

  begin_on-Begins :
      (context : ActionAuthorizationContext) (now : ℕ) (s : CallbackService) (c : Check)
      → check_operation key fp s ≡ c
      → Clear key s
      → Begins (begin_on cfg req context now s c)
  unfolding begin_on Begins
  begin_on-Begins context now s new_key e h = begin_on_pending-Begins context now s _ h
  begin_on-Begins context now s (replays r) e h = (Kept-replays key fp r s).0 e
  begin_on-Begins context now s (refuses x) e h = h

  schedule_begin-Begins :
      (context : ActionAuthorizationContext) (now : ℕ) (s : CallbackService)
      → Clear key s
      → Begins (schedule_begin cfg req context now s)
  unfolding schedule_begin
  schedule_begin-Begins context now s h =
      begin_on-Begins context now s (check_operation key fp s) refl h

  schedule_settle-Stored :
      (pending : PendingSchedule) (outcome : Outcome) (now : ℕ) (s : CallbackService)
      → Clear key s
      → Stored (schedule_settle cfg req pending outcome now s)
  unfolding schedule_settle
  schedule_settle-Stored pending rejects now s h = h
  schedule_settle-Stored pending breaks now s h = h
  schedule_settle-Stored pending (accepts reference) now s h = store_operation-Kept key fp _ _ h

  schedule_after-Stored :
      (outcome : Outcome) (later : ℕ) (begun : Begun × CallbackService)
      → Begins begun
      → Stored (schedule_after cfg req outcome later begun)
  unfolding schedule_after Begins
  schedule_after-Stored outcome later (answers reply, s) h = h
  schedule_after-Stored outcome later (calls pending, s) h =
      schedule_settle-Stored pending outcome later s h

  pub schedule-Stored :
      (context : ActionAuthorizationContext) (now : ℕ) (outcome : Outcome) (later : ℕ)
      (s : CallbackService)
      → Clear key s
      → Stored (schedule cfg req context now outcome later s)
  unfolding schedule
  schedule-Stored context now outcome later s h =
      schedule_after-Stored outcome later (schedule_begin cfg req context now s)
        (schedule_begin-Begins context now s h)

  pub returned-Kept :
      (reply : Reply) (s : CallbackService) (r : CallbackRecord)
      → Stored (reply, s)
      → reply ≡ returned r
      → Kept key fp r s
  returned-Kept (returned x) s r h e = record {
    fingerprint = h.fingerprint;
    result = ground arith;
    not_failed = h.not_failed;
  }
  returned-Kept (raised x) s r h e = ground arith

-- The answer to a key that is known, which does not reach the scheduler.
pub known_key :
    (cfg : CallbackConfig) (req : CallbackRequest) (c : Check)
    (context : ActionAuthorizationContext) (now later : ℕ) (outcome : Outcome) (s : CallbackService)
    → check_operation req.idempotency_key (schedule_fingerprint cfg req) s ≡ c
    → schedule cfg req context now outcome later s
      ≡ schedule_after cfg req outcome later (begin_on cfg req context now s c)
unfolding schedule schedule_begin
known_key cfg req c context now later outcome s e = rw e refl

-- When a call of `schedule` has returned, under a key whose cancellation has not failed for good, a
-- request with another text under the same key is refused as a conflict, and changes nothing.
pub key_not_reused :
    (cfg : CallbackConfig) (req : CallbackRequest) (other : CallbackRequest)
    (context again : ActionAuthorizationContext) (now later now_again later_again : ℕ)
    (outcome other_outcome : Outcome) (r : CallbackRecord) (s : CallbackService)
    → get req.idempotency_key s.failed_cancellations ≡ none
    → other.idempotency_key ≡ req.idempotency_key
    → cfg.model_dump_json req ≢ cfg.model_dump_json other
    → let first = schedule cfg req context now outcome later s in
      first.0 ≡ returned r
      → schedule cfg other again now_again other_outcome later_again first.1
        ≡ (raised conflict, first.1)
unfolding begin_on schedule_after
key_not_reused cfg req other context again now later now_again later_again outcome other_outcome r s
      h k d e =
    let first = schedule cfg req context now outcome later s in
    let kept =
      returned-Kept cfg req first.0 first.1 r
        (schedule-Stored cfg req context now outcome later s h) e in
    let moved : Kept other.idempotency_key (schedule_fingerprint cfg req) r first.1 = rw k kept in
    known_key cfg other (refuses conflict) again now_again later_again other_outcome first.1 (
      check-refuses other.idempotency_key (schedule_fingerprint cfg req)
        (schedule_fingerprint cfg other) r first.1 moved (λ q. d (ap (λ f. f.1) q)))
