-- ===== src/Actions/Callbacks/Calls.antt =====
-- When a due callback dials, and that it does not dial again.
use Prim.Native.String.{String, ◌++◌}
use pitch_bot.Prelude.{ℕ, none, some, ◌≡◌, ◌≤◌, ◌↔◌, arith, nat_eq, string_eq, get, get-put_same}
use pitch_bot.Actions.Policy.{ActionAuthorizationContext, approved, callback_schedule, authorize}
use pitch_bot.Actions.Callbacks.{
  CallbackRequest, scheduled, CallbackRecord, CallbackService, Outcome, returned,
}
use pitch_bot.Actions.Callbacks.Dispatch.{
  dials, dispatch_record, dispatch_begin, dispatch_settle, dispatch_one,
}

-- A dispatch dials exactly when the callback is scheduled, its time has come, and the policy approves
-- of it in the context of that moment.
pub dials_exactly :
    (id : String) (context_for : CallbackRequest → ActionAuthorizationContext) (now : ℕ)
    (r : CallbackRecord) (s : CallbackService)
    → get id s.records ≡ some r
    → ((dispatch_begin id context_for now s).0
        ≡ dials r ("lead:" ++ r.request.lead_id) ("dispatch:" ++ r.request.idempotency_key))
      ↔ ((r.status ≡ scheduled)
          × (r.request.run_at ≤ now)
          × ((authorize callback_schedule (context_for r.request) now).status ≡ approved))
unfolding dispatch_begin dispatch_record authorize
dials_exactly id context_for now r s e = ground arith

-- A dispatch that has reported a record leaves nothing to dispatch: another one, at any time, does
-- nothing.
pub dispatched_once :
    (id : String) (context_for context_again : CallbackRequest → ActionAuthorizationContext)
    (now later now_again later_again : ℕ) (outcome other_outcome : Outcome) (r : CallbackRecord)
    (s : CallbackService)
    → let first = dispatch_one id context_for now outcome later s in
      first.0 ≡ some (returned r)
      → dispatch_one id context_again now_again other_outcome later_again first.1 ≡ (none, first.1)
unfolding dispatch_one dispatch_begin dispatch_record dispatch_settle
dispatched_once id context_for context_again now later now_again later_again outcome other_outcome r
      s e =
    grind (arith, get-put_same)
