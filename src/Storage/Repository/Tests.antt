-- ===== src/Storage/Repository/Tests.antt =====
-- Two sessions that append to one lead.
use pitch_bot.Prelude.{
  ℕ, ◌+◌, ◌≡◌, ◌≢◌, ◌↔◌, refl, none, some, List, [], ◌∷◌, ◌++◌, get, put, nat_eq,
}
use pitch_bot.Domain.Json.{end}
use pitch_bot.Storage.Models.{Database, empty_database}
use pitch_bot.Storage.Repository.{
  ok, err, concurrency_conflict, AuditEvent, AppendRequest, Pending, make_event, append_begin,
  check_aggregate, append_finish, insert_new, commit, duplicates, append, read, current_version,
}
use pitch_bot.Storage.Repository.Laws.{empty_database-Inv}
use pitch_bot.Storage.Repository.Appends.{Fits, Expected, accepted_append, append_accepts_iff}

abbrev request : AppendRequest
request = record {
  event_id = 900;
  aggregate_id = 7;
  aggregate_type = "lead";
  event_type = "conversation.turn-accepted.v1";
  payload = end;
  expected_version = some 0;
  occurred_at = 50;
}

abbrev pending : Pending
pending = record { snapshot = none; event = make_event request 0 }

abbrev stored : Database
stored = (append_finish pending empty_database).1

begun : append_begin request empty_database ≡ ok pending
unfolding append_begin check_aggregate get
begun = refl

finished : append_finish pending empty_database ≡ (ok (make_event request 0), stored)
unfolding append_finish insert_new commit duplicates get
finished = refl

-- the other session had read the empty database too
second_refused : (append_finish pending stored).0 ≡ err concurrency_conflict
unfolding append_finish insert_new commit duplicates get put
second_refused = refl

accepted_append_example :
    (1 ≡ current_version 7 empty_database + 1)
    × (current_version 7 stored ≡ 1)
    × ((before : List AuditEvent)
        → read 7 none empty_database ≡ ok before
        → read 7 none stored ≡ ok (before ++ make_event request 0 ∷ []))
    × ((id : ℕ) → id ≢ 7 → read id none stored ≡ read id none empty_database)
accepted_append_example =
    accepted_append request empty_database empty_database stored pending (make_event request 0)
      empty_database-Inv begun finished

append_accepts_iff_example :
    ((append request empty_database).0 ≡ ok (make_event request (current_version 7 empty_database)))
    ↔ (Fits "lead" (get 7 empty_database.aggregates)
        × Expected (some 0) (current_version 7 empty_database))
append_accepts_iff_example = append_accepts_iff request empty_database empty_database-Inv refl
