-- ===== src/Actions/Callbacks/Tests.antt =====
-- The callbacks, run at a concrete request.
use Prim.Native.String.{String, ◌++◌}
use pitch_bot.Prelude.{
  ◌≡◌, ◌≢◌, ◌↔◌, refl, true, false, Bool, none, some, List, [], ◌∷◌, string_eq, arith, get, put,
  from_keys, member,
}
use pitch_bot.Actions.Policy.{
  warm, ActionAuthorizationContext, authorize, gate_reasons, when, temperature_reasons,
}
use pitch_bot.Actions.Callbacks.{
  CallbackRequest, website_discovery, CallbackConfig, CallbackService, CallbackRecord, scheduled,
  dispatched, new_service, accepts, breaks, returned, check_operation, store_operation,
}
use pitch_bot.Actions.Callbacks.Schedule.{
  schedule, schedule_begin, begin_on, begin_on_pending, schedule_new, admit_on, schedule_settle,
  schedule_after, active_callback_ids, active_records, pending_ids,
}
use pitch_bot.Actions.Callbacks.Dispatch.{
  dispatch_begin, dispatch_record, dispatch_settle, dispatch_one,
}
use pitch_bot.Actions.Callbacks.Teardown.{remove_record, remove_pending_schedule}
use pitch_bot.Actions.Callbacks.Removal.{removed_iff_returns, pending_removed_iff_returns}
use pitch_bot.Actions.Callbacks.Resend.{Between, schedules, dispatches, all_between, replays_later}
use pitch_bot.Actions.Callbacks.Calls.{dispatched_once}

abbrev dump : CallbackRequest → String
dump r = r.lead_id ++ "," ++ r.callback_id ++ "," ++ r.timezone

abbrev blank : String → Bool
blank k = string_eq.beq k ""

abbrev config : CallbackConfig
config = record {
  model_dump_json = dump;
  show = λ n. "1";
  is_blank = blank;
  starts_with = string_eq.beq;
  max_callbacks = 100;
  max_future = 7776000;
  ephemeral = false;
}

abbrev request : CallbackRequest
request = record {
  lead_id = "lead-1";
  callback_id = "session-a";
  run_at = 2000;
  timezone = "Asia/Kolkata";
  agenda = website_discovery;
  idempotency_key = "key-1";
}

abbrev other_request : CallbackRequest
other_request = record request { callback_id = "session-b" }

abbrev eligible : ActionAuthorizationContext
eligible = record {
  disclosure_delivered = true;
  consent_granted = true;
  contact_policy = record {
    has_opted_out = false;
    outreach_allowed = true;
    allowlisted = true;
    dnd_check_passed = true;
    calling_hours_check_passed = true;
  };
  temperature = warm;
  conversation_disposition = "continue";
  used_actions = 0;
  max_actions = 3;
}

abbrev booked : CallbackRecord
booked = record {
  request = request;
  status = scheduled;
  provider_reference = some "job-9";
  block_reasons = [];
  updated_at = 1001;
}

abbrev context_for : CallbackRequest → ActionAuthorizationContext
context_for r = eligible

abbrev with_booked : CallbackService
with_booked = record new_service { records = ("session-a", booked) ∷ [] }

abbrev called : CallbackRecord
called = record booked {
  status = dispatched;
  provider_reference = some "call-3";
  updated_at = 2002;
}

books :
    (schedule config request eligible 1000 (accepts "job-9") 1001 new_service).0 ≡ returned booked
unfolding schedule schedule_begin begin_on begin_on_pending schedule_new admit_on schedule_settle
    schedule_after active_callback_ids active_records pending_ids check_operation store_operation
    get put from_keys member authorize gate_reasons when temperature_reasons
books = refl

key_clear : get "key-1" new_service.failed_cancellations ≡ none
unfolding get
key_clear = refl

-- another schedule, and the dial of the first
abbrev meanwhile : List Between
meanwhile =
    schedules (record other_request { idempotency_key = "key-2" }) eligible 1500 (accepts "job-10")
      1501
    ∷ dispatches "session-a" context_for 2001 (accepts "call-3") 2002
    ∷ []

replays_later_example :
    let first = schedule config request eligible 1000 (accepts "job-9") 1001 new_service in
    let then_ = all_between config meanwhile first.1 in
    schedule config request eligible 9000 breaks 9001 then_ ≡ (returned booked, then_)
replays_later_example =
    replays_later config request eligible eligible 1000 1001 9000 9001 (accepts "job-9") breaks
      booked meanwhile new_service key_clear books

texts_differ : config.model_dump_json request ≢ config.model_dump_json other_request
texts_differ e = ground (arith, (string_eq.beq_iff (dump request) (dump other_request)).1 e)

booked_there : get "session-a" with_booked.records ≡ some booked
unfolding get
booked_there = refl

dials_booked :
    (dispatch_one "session-a" context_for 2001 (accepts "call-3") 2002 with_booked).0
    ≡ some (returned called)
unfolding dispatch_one dispatch_begin dispatch_record dispatch_settle get put authorize gate_reasons
    when temperature_reasons
dials_booked = refl

dispatched_once_example :
    let first = dispatch_one "session-a" context_for 2001 (accepts "call-3") 2002 with_booked in
    dispatch_one "session-a" context_for 3000 (accepts "call-4") 3001 first.1 ≡ (none, first.1)
dispatched_once_example =
    dispatched_once "session-a" context_for context_for 2001 2002 3000 3001 (accepts "call-3")
      (accepts "call-4") called with_booked dials_booked

removed_iff_returns_example :
    let out = remove_record config "session-a" breaks 3000 with_booked in
    (out.0 ≡ none) ↔ (get "session-a" out.1.records ≡ none)
removed_iff_returns_example = removed_iff_returns config "session-a" breaks 3000 with_booked

pending_removed_iff_returns_example :
    let out = remove_pending_schedule config "key-1" breaks new_service in
    (out.0 ≡ none) ↔ (get "key-1" out.1.pending_schedules ≡ none)
pending_removed_iff_returns_example = pending_removed_iff_returns config "key-1" breaks new_service
