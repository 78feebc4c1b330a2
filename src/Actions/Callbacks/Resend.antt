-- ===== src/Actions/Callbacks/Resend.antt =====
-- A schedule that is sent again after other schedules and dispatches: `_schedule` and `_dispatch_one`
-- of src/pitchbot/actions/callbacks.py.
use Prim.Native.String.{String}
use pitch_bot.Prelude.{
  ℕ, not, false, Bool-cases, inl, inr, Option, none, some, List, [], ◌∷◌, ◌≡◌, arith, nat_eq,
  string_eq, pair_eq, get, get-put, if_holds,
}
use pitch_bot.Actions.Policy.{
  BlockReason, callback_time_invalid, ActionAuthorizationContext, callback_schedule, authorize,
}
use pitch_bot.Actions.Callbacks.{
  CallbackRequest, CallbackRecord, PendingSchedule, CallbackConfig, CallbackService, Fingerprint,
  Outcome, accepts, rejects, breaks, conflict, at_capacity, returned, raised, Check, new_key,
  replays, refuses, same_fingerprint, same_fingerprint_iff, store_operation, schedule_fingerprint,
  blocked_reply,
}
use pitch_bot.Actions.Callbacks.Schedule.{
  time_invalid, over_capacity, taken, Begun, answers, calls, admit_on, begin_on, begin_on_pending,
  schedule_after, schedule_new, schedule_begin, schedule_settle, schedule,
}
use pitch_bot.Actions.Callbacks.Dispatch.{
  dispatch_record, dispatch_begin, dispatch_settle, dispatch_one,
}
use pitch_bot.Actions.Callbacks.Replay.{
  Kept, Kept-replays, check-refuses, known_key, schedule-Stored, returned-Kept,
}

-- Another call in between.
pub data Between : Type 0 where
  schedules : CallbackRequest → ActionAuthorizationContext → ℕ → Outcome → ℕ → Between
  dispatches : String → (CallbackRequest → ActionAuthorizationContext) → ℕ → Outcome → ℕ → Between

unfoldable pub between : CallbackConfig → Between → CallbackService → CallbackService
between cfg (schedules req context now outcome later) s =
    (schedule cfg req context now outcome later s).1
between cfg (dispatches id context_for now outcome later) s =
    (dispatch_one id context_for now outcome later s).1

unfoldable pub all_between : CallbackConfig → List Between → CallbackService → CallbackService
all_between cfg [] s = s
all_between cfg (c ∷ cs) s = all_between cfg cs (between cfg c s)

module _ (cfg : CallbackConfig) (k : String) (f : Fingerprint) (r : CallbackRecord) where
  abbrev Keeps : {A : Type 0} → A × CallbackService → Type 0
  Keeps out = Kept k f r out.1

  store_elsewhere :
      (key : String) (g : Fingerprint) (x : CallbackRecord) (s : CallbackService)
      → string_eq.beq key k ≡ false
      → Kept k f r s
      → Kept k f r (store_operation key g x s)
  unfolding store_operation
  store_elsewhere key g x s other h = record {
    fingerprint = simp (get-put, other) h.fingerprint;
    result = simp (get-put, other) h.result;
    not_failed = h.not_failed;
  }

  module _ (req : CallbackRequest) (other : string_eq.beq req.idempotency_key k ≡ false) where
    blocked-Keeps :
        (reasons : List BlockReason) (now : ℕ) (s : CallbackService)
        → Kept k f r s
        → let out = blocked_reply cfg req reasons now s in
          Keeps {A = Begun} (answers (returned out.0), out.1)
    unfolding blocked_reply
    blocked-Keeps reasons now s h =
        store_elsewhere req.idempotency_key (schedule_fingerprint cfg req)
          (blocked_reply cfg req reasons now s).0 s other h

    admit_on-Keeps :
        (context : ActionAuthorizationContext) (now : ℕ) (s : CallbackService)
        (reasons : List BlockReason)
        → Kept k f r s
        → Keeps (admit_on cfg req context now s reasons)
    unfolding admit_on
    admit_on-Keeps context now s [] h = record {
      fingerprint = h.fingerprint;
      result = h.result;
      not_failed = h.not_failed;
    }
    admit_on-Keeps context now s (x ∷ xs) h = blocked-Keeps (x ∷ xs) now s h

    schedule_new-Keeps :
        (context : ActionAuthorizationContext) (now : ℕ) (s : CallbackService)
        → Kept k f r s
        → Keeps (schedule_new cfg req context now s)
    unfolding schedule_new
    schedule_new-Keeps context now s h =
        let reasons = (authorize callback_schedule context now).reasons in
        let out = blocked_reply cfg req (callback_time_invalid ∷ []) now s in
        if_holds Keeps (time_invalid cfg req now) (answers (returned out.0), out.1) _
          (blocked-Keeps (callback_time_invalid ∷ []) now s h)
          (if_holds Keeps (over_capacity cfg req s) (answers (raised at_capacity), s) _ h
            (if_holds Keeps (taken req s) (answers (raised conflict), s) _ h
              (admit_on-Keeps context now s reasons h)))

    begin_on-Keeps :
        (context : ActionAuthorizationContext) (now : ℕ) (s : CallbackService) (c : Check)
        → Kept k f r s
        → Keeps (begin_on cfg req context now s c)
    unfolding begin_on begin_on_pending
    begin_on-Keeps context now s (replays x) h = h
    begin_on-Keeps context now s (refuses e) h = h
    begin_on-Keeps context now s new_key h =
        pending_or_new (get req.idempotency_key s.pending_schedules)
      where
        pending_or_new :
            (p : Option PendingSchedule) → Keeps (begin_on_pending cfg req context now s p)
        pending_or_new none = schedule_new-Keeps context now s h
        pending_or_new (some p) =
            if_holds Keeps (not (same_fingerprint p.fingerprint (schedule_fingerprint cfg req)))
              (answers (raised conflict), s) (calls p, s) h h

    settle-Keeps :
        (outcome : Outcome) (later : ℕ) (begun : Begun × CallbackService)
        → Keeps begun
        → Keeps (schedule_after cfg req outcome later begun)
    unfolding schedule_after schedule_settle
    settle-Keeps outcome later (answers reply, s) h = h
    settle-Keeps rejects later (calls p, s) h = record {
      fingerprint = h.fingerprint;
      result = h.result;
      not_failed = h.not_failed;
    }
    settle-Keeps breaks later (calls p, s) h = h
    settle-Keeps (accepts reference) later (calls p, s) h =
        store_elsewhere req.idempotency_key (schedule_fingerprint cfg req) _ _ other
          (record { fingerprint = h.fingerprint; result = h.result; not_failed = h.not_failed })

  -- a request under the same key is answered from what the key stands for
  same_key-Keeps :
      (req : CallbackRequest) (context : ActionAuthorizationContext) (now : ℕ) (outcome : Outcome)
      (later : ℕ) (s : CallbackService)
      → req.idempotency_key ≡ k
      → Kept k f r s
      → Keeps (schedule cfg req context now outcome later s)
  unfolding begin_on schedule_after
  same_key-Keeps req context now outcome later s same h =
      let g = schedule_fingerprint cfg req in
      let there : Kept req.idempotency_key f r s = rw same h in
      elim (Bool-cases (same_fingerprint f g)) [
        | inl e ↦
            let q = (same_fingerprint_iff f g).0 e in
            rw
              (known_key cfg req (replays r) context now later outcome s
                ((Kept-replays req.idempotency_key g r s).1 (rw (← q) there)))
              h
        | inr n ↦
            rw
              (known_key cfg req (refuses conflict) context now later outcome s (
                check-refuses req.idempotency_key f g r s there
                  (λ q. absurd (ground (arith, n, (same_fingerprint_iff f g).1 q)))))
              h
      ]

  schedule-Keeps :
      (req : CallbackRequest) (context : ActionAuthorizationContext) (now : ℕ) (outcome : Outcome)
      (later : ℕ) (s : CallbackService)
      → Kept k f r s
      → Keeps (schedule cfg req context now outcome later s)
  unfolding schedule schedule_begin
  schedule-Keeps req context now outcome later s h =
      elim (Bool-cases (string_eq.beq req.idempotency_key k)) [
        | inl e ↦
            same_key-Keeps req context now outcome later s
              ((string_eq.beq_iff req.idempotency_key k).0 e) h
        | inr other ↦
            settle-Keeps req other outcome later _ (begin_on-Keeps req other context now s _ h)
      ]

  dispatch-Keeps :
      (id : String) (context_for : CallbackRequest → ActionAuthorizationContext) (now : ℕ)
      (outcome : Outcome) (later : ℕ) (s : CallbackService)
      → Kept k f r s
      → Keeps (dispatch_one id context_for now outcome later s)
  unfolding dispatch_one dispatch_begin dispatch_record dispatch_settle
  dispatch-Keeps id context_for now outcome later s h = record {
    fingerprint = ground (arith, h.fingerprint);
    result = ground (arith, h.result);
    not_failed = ground (arith, h.not_failed);
  }

  all_between-Kept :
      (cs : List Between) (s : CallbackService) → Kept k f r s → Kept k f r (all_between cfg cs s)
  unfolding all_between between
  all_between-Kept [] s h = h
  all_between-Kept (schedules req context now outcome later ∷ cs) s h =
      all_between-Kept cs _ (schedule-Keeps req context now outcome later s h)
  all_between-Kept (dispatches id context_for now outcome later ∷ cs) s h =
      all_between-Kept cs _ (dispatch-Keeps id context_for now outcome later s h)

-- When a call of `schedule` has returned, under a key whose cancellation has not failed for good, the
-- same request, sent again after any other schedules and dispatches, returns the same record at any
-- time and in any context, and changes nothing.
pub replays_later :
    (cfg : CallbackConfig) (req : CallbackRequest) (context again : ActionAuthorizationContext)
    (now later now_again later_again : ℕ) (outcome other_outcome : Outcome) (r : CallbackRecord)
    (cs : List Between) (s : CallbackService)
    → get req.idempotency_key s.failed_cancellations ≡ none
    → let first = schedule cfg req context now outcome later s in
      first.0 ≡ returned r
      → let then_ = all_between cfg cs first.1 in
        schedule cfg req again now_again other_outcome later_again then_ ≡ (returned r, then_)
unfolding begin_on schedule_after
replays_later cfg req context again now later now_again later_again outcome other_outcome r cs s h
      e =
    let first = schedule cfg req context now outcome later s in
    let key = req.idempotency_key in
    let fp = schedule_fingerprint cfg req in
    let kept =
      returned-Kept cfg req first.0 first.1 r
        (schedule-Stored cfg req context now outcome later s h) e in
    let still = all_between-Kept cfg key fp r cs first.1 kept in
    known_key cfg req (replays r) again now_again later_again other_outcome _
      ((Kept-replays key fp r (all_between cfg cs first.1)).1 still)
