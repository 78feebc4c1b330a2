-- ===== src/Actions/Callbacks/Dispatch.antt =====
-- `CallbackService._dispatch_one` and `get` of src/pitchbot/actions/callbacks.py. The dial is cut into
-- its two sides, since a teardown can take the record away in between.
use Prim.Native.String.{String, ◌++◌}
use pitch_bot.Prelude.{
  ℕ, Bool, true, false, not, ◌||◌, Option, none, some, [], ◌∷◌, ltb, string_eq, get, put,
  if◌then◌else◌,
}
use pitch_bot.Actions.Policy.{
  ActionAuthorizationContext, callback_schedule, policy_changed, authorize,
}
use pitch_bot.Actions.Callbacks.{
  CallbackRequest, CallbackStatus, scheduled, dispatched, blocked, CallbackRecord, CallbackService,
  Outcome, accepts, rejects, breaks, not_found, adapter_rejected, adapter_broke, Reply, returned,
  raised,
}
use pitch_bot.Actions.Callbacks.Cancel.{with_status}

abbrev pub is_scheduled : CallbackStatus → Bool
is_scheduled st = elim st [ scheduled ↦ true | _ ↦ false ]

-- before the dial: there is nothing to do, the record is blocked, or a lead is dialled under a key
pub data Dispatch : Type 0 where
  skips : Dispatch
  blocks : CallbackRecord → Dispatch
  dials : CallbackRecord → String → String → Dispatch

unfoldable pub dispatch_record :
    String
    → CallbackRecord
    → (CallbackRequest → ActionAuthorizationContext)
    → ℕ
    → CallbackService
    → Dispatch × CallbackService
dispatch_record id r context_for now s =
    elim ((authorize callback_schedule (context_for r.request) now).reasons) [
      | [] ↦ (dials r ("lead:" ++ r.request.lead_id) ("dispatch:" ++ r.request.idempotency_key), s)
      | x ∷ xs ↦
          let updated = record (with_status blocked now r) {
            block_reasons = policy_changed ∷ x ∷ xs;
          } in
          (blocks updated, record s { records = put id updated s.records })
    ]

unfoldable pub dispatch_begin :
    String
    → (CallbackRequest → ActionAuthorizationContext)
    → ℕ
    → CallbackService
    → Dispatch × CallbackService
dispatch_begin id context_for now s = elim (get id s.records) [
  | none ↦ (skips, s)
  | some r ↦
      if not (is_scheduled r.status) || ltb now r.request.run_at
      then (skips, s)
      else dispatch_record id r context_for now s
]

unfoldable pub dispatch_settle :
    String → CallbackRecord → Outcome → ℕ → CallbackService → Option Reply × CallbackService
dispatch_settle id r rejects now s = (some (raised adapter_rejected), s)
dispatch_settle id r breaks now s = (some (raised adapter_broke), s)
dispatch_settle id r (accepts reference) now s = elim (get id s.records) [
  | none ↦ (none, s)
  | some _ ↦
      let updated = record (with_status dispatched now r) { provider_reference = some reference } in
      (some (returned updated), record s { records = put id updated s.records })
]

unfoldable pub dispatch_one :
    String
    → (CallbackRequest → ActionAuthorizationContext)
    → ℕ
    → Outcome
    → ℕ
    → CallbackService
    → Option Reply × CallbackService
dispatch_one id context_for now outcome later s =
    let begun = dispatch_begin id context_for now s in
    elim (begun.0) [
      | skips ↦ (none, begun.1)
      | blocks r ↦ (some (returned r), begun.1)
      | dials r lead key ↦ dispatch_settle id r outcome later begun.1
    ]

unfoldable pub get_callback : String → CallbackService → Reply
get_callback id s = elim (get id s.records) [ none ↦ raised not_found | some r ↦ returned r ]
