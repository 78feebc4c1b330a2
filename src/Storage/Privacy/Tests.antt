-- ===== src/Storage/Privacy/Tests.antt =====
-- A lead that is erased, and a purge.
use Prim.Native.String.{String}
use pitch_bot.Prelude.{
  ℕ, ◌+◌, ◌≡◌, ◌≢◌, refl, true, false, none, [], ◌∷◌, length, get, put, member, nat_eq,
}
use pitch_bot.Domain.Json.{end}
use pitch_bot.Storage.Models.{EventRecord, Database, empty_database}
use pitch_bot.Storage.Repository.{
  ok, AuditEvent, AppendRequest, Pending, make_event, append_begin, check_aggregate, append_finish,
  insert_new, commit, duplicates, append, read,
}
use pitch_bot.Storage.Repository.Laws.{Inv, erased}
use pitch_bot.Storage.Privacy.{
  hard_delete, hard_delete_row, close_aggregate, count_where, expired, purge_expired,
}
use pitch_bot.Storage.Privacy.Reach.{
  appends, deletes, purges, Reach, start, next, Reach_keeps_order,
}
use pitch_bot.Storage.Privacy.Laws.{now, then_, is_protected, erased_for_good, purge_exact}

abbrev request : AppendRequest
request = record {
  event_id = 900;
  aggregate_id = 7;
  aggregate_type = "lead";
  event_type = "lead.created";
  payload = end;
  expected_version = none;
  occurred_at = 50;
}

abbrev pending : Pending
pending = record { snapshot = none; event = make_event request 0 }

abbrev one_event : Database
one_event = (append_finish pending empty_database).1

begun : append_begin request empty_database ≡ ok pending
unfolding append_begin check_aggregate get
begun = refl

one_event-Reach : Reach one_event
one_event-Reach = next start (appends request pending start begun)

Reach_keeps_order_example : Inv one_event
Reach_keeps_order_example = Reach_keeps_order one_event-Reach

abbrev deleted : Database
deleted = (hard_delete 1 7 60 one_event).1

deleted_is_erased : erased (get 7 deleted.aggregates) ≡ true
unfolding hard_delete hard_delete_row close_aggregate append_finish insert_new commit duplicates get
    put
deleted_is_erased = refl

abbrev afterwards : Database
afterwards = (purge_expired 100 false deleted).1

erased_for_good_example :
    (read 7 none afterwards ≡ ok [])
    × ((req : AppendRequest)
        → req.aggregate_id ≡ 7
        → (e : AuditEvent) → (append req afterwards).0 ≢ ok e)
erased_for_good_example =
    erased_for_good 7 (next one_event-Reach (deletes 1 7 60)) deleted_is_erased
      (then_ now (purges 100 false))

abbrev event_of : ℕ → String → ℕ → EventRecord
event_of id type at = record {
  event_id = id;
  aggregate_id = 7;
  aggregate_type = "lead";
  aggregate_version = id;
  event_type = type;
  payload = end;
  occurred_at = at;
  anonymized_at = none;
}

abbrev three_events : Database
three_events = record empty_database {
  events =
      event_of 1 "lead.created" 10
      ∷ event_of 2 "lead.opted_out" 20
      ∷ event_of 3 "lead.updated" 90
      ∷ [];
}

purge_takes_one : (purge_expired 50 false three_events).0 ≡ 1
unfolding purge_expired count_where member
purge_takes_one = refl

purge_exact_example :
    let dry = purge_expired 50 true three_events in
    let real = purge_expired 50 false three_events in
    (dry ≡ (real.0, three_events))
    × (length real.1.events + real.0 ≡ 3)
    × (count_where (expired 50) real.1.events ≡ 0)
    × (count_where is_protected real.1.events ≡ count_where is_protected three_events.events)
purge_exact_example = purge_exact 50 three_events
