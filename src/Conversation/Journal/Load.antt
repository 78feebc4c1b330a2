-- ===== src/Conversation/Journal/Load.antt =====
-- Loading a lead's journal: `_load_events`, `_parse_event` and `_find_operation` of
-- src/pitchbot/conversation/journal.py, on the databases that the three reads of an attempt see. The
-- decoding and validation of a payload by pydantic is the argument `decode`, the test for the prefix
-- "conversation." is `is_ours`.
use pitch_bot.Prelude.{
  String, ℕ, ◌+◌, Bool, true, false, not, ◌&&◌, Option, none, some, List, [], ◌∷◌, map, length, ltb,
  ◌==◌, from_keys, string_eq, nat_eq, if◌then◌else◌,
}
use pitch_bot.Domain.Json.{JsonFields}
use pitch_bot.Storage.Models.{Database, PrivacyState, active, anonymized, hard_deleted, is_active}
use pitch_bot.Storage.Repository.{AuditEvent, Result, ok, err, AggregateStatus, read, status}
use pitch_bot.Conversation.Journal.{
  ConversationTurnEvent, JournaledConversationTurn, JournalError, corrupted, conflict,
  operation_conflict, history_unavailable, value_error, Journal, failed, done,
}

abbrev pub conversation_aggregate_type : String
conversation_aggregate_type = "lead"

abbrev pub turn_accepted_event_type : String
turn_accepted_event_type = "conversation.turn-accepted.v1"

abbrev pub parsed_event :
    ℕ → AuditEvent → Journal ConversationTurnEvent → Journal JournaledConversationTurn
parsed_event lead a (failed e) = failed e
parsed_event lead a (done payload) =
    if payload.result.classification.lead_id == lead
    then done (record {
      aggregate_version = a.aggregate_version;
      occurred_at = a.occurred_at;
      event = payload;
    })
    else failed corrupted

unfoldable pub parse_event :
    (JsonFields → Journal ConversationTurnEvent)
    → ℕ
    → AuditEvent
    → Journal JournaledConversationTurn
parse_event decode lead a =
    if string_eq.beq a.aggregate_type conversation_aggregate_type
    then parsed_event lead a (decode a.payload)
    else failed corrupted

abbrev pub cons_turn :
    Journal JournaledConversationTurn
    → Journal (List JournaledConversationTurn)
    → Journal (List JournaledConversationTurn)
cons_turn (failed e) rest = failed e
cons_turn (done t) (failed e) = failed e
cons_turn (done t) (done turns) = done (t ∷ turns)

-- the loop over the events
unfoldable pub parse_events :
    (JsonFields → Journal ConversationTurnEvent)
    → (String → Bool)
    → ℕ
    → List AuditEvent
    → Journal (List JournaledConversationTurn)
parse_events decode is_ours lead [] = done []
parse_events decode is_ours lead (a ∷ events) =
    let rest = parse_events decode is_ours lead events in
    if string_eq.beq a.event_type turn_accepted_event_type
    then cons_turn (parse_event decode lead a) rest
    else if is_ours a.event_type
    then failed corrupted
    else rest

-- the versions count up from the given one
unfoldable pub contiguous : ℕ → List AuditEvent → Bool
contiguous expected_version [] = true
contiguous expected_version (a ∷ events) =
    (a.aggregate_version == expected_version) && contiguous (expected_version + 1) events

abbrev pub operation_ids : List JournaledConversationTurn → List ℕ
operation_ids = map (λ t. t.event.operation_id)

-- len(operation_ids) == len(set(operation_ids))
abbrev pub distinct_operations : List JournaledConversationTurn → Bool
distinct_operations turns = length (from_keys (operation_ids turns)) == length (operation_ids turns)

-- What one attempt comes to: the journal changed meanwhile, or an error, or the turns.
pub data Attempt : Type 0 where
  changed : Attempt
  gave_up : JournalError → Attempt
  loaded : List JournaledConversationTurn → Option AggregateStatus → Attempt

abbrev pub examined : Option AggregateStatus → Journal (List JournaledConversationTurn) → Attempt
examined st (failed e) = gave_up e
examined st (done turns) = if distinct_operations turns then loaded turns st else gave_up corrupted

unfoldable pub examine :
    ℕ
    → (JsonFields → Journal ConversationTurnEvent)
    → (String → Bool)
    → ℕ
    → List AuditEvent
    → Option AggregateStatus
    → Attempt
examine limit decode is_ours lead raw st =
    if ltb limit (length raw)
    then gave_up history_unavailable
    else if contiguous 1 raw
    then examined st (parse_events decode is_ours lead raw)
    else gave_up corrupted

abbrev pub is_nil {ℓ} : {A : Type ℓ} → List A → Bool
is_nil [] = true
is_nil (x ∷ xs) = false

unfoldable pub settled :
    ℕ
    → (JsonFields → Journal ConversationTurnEvent)
    → (String → Bool)
    → ℕ
    → List AuditEvent
    → Option AggregateStatus
    → Attempt
settled limit decode is_ours lead raw none =
    if is_nil raw then examine limit decode is_ours lead raw none else changed
settled limit decode is_ours lead raw (some st) =
    if not (string_eq.beq st.aggregate_type conversation_aggregate_type)
    then gave_up corrupted
    else if not (is_active st.privacy_state)
    then gave_up history_unavailable
    else if not (st.current_version == length raw)
    then gave_up history_unavailable
    else examine limit decode is_ours lead raw (some st)

abbrev privacy_code : PrivacyState → ℕ
privacy_code active = 0
privacy_code anonymized = 1
privacy_code hard_deleted = 2

abbrev pub same_status : Option AggregateStatus → Option AggregateStatus → Bool
same_status none none = true
same_status (some a) (some b) =
    string_eq.beq a.aggregate_type b.aggregate_type
    && (a.current_version == b.current_version)
    && (privacy_code a.privacy_state == privacy_code b.privacy_state)
same_status _ _ = false

abbrev pub over_limit : ℕ → Option AggregateStatus → Bool
over_limit limit none = false
over_limit limit (some st) = ltb limit st.current_version

abbrev pub attempt_on :
    ℕ
    → (JsonFields → Journal ConversationTurnEvent)
    → (String → Bool)
    → ℕ
    → Option AggregateStatus
    → Result (List AuditEvent)
    → Option AggregateStatus
    → Attempt
attempt_on limit decode is_ours lead before (err e) after = gave_up value_error
attempt_on limit decode is_ours lead before (ok raw) after =
    if same_status before after then settled limit decode is_ours lead raw after else changed

-- one attempt, on the databases that its reads see
unfoldable pub load_attempt :
    ℕ
    → (JsonFields → Journal ConversationTurnEvent)
    → (String → Bool)
    → ℕ
    → Database × Database × Database
    → Attempt
load_attempt limit decode is_ours lead (before, mid, after) =
    if over_limit limit (status lead before)
    then gave_up history_unavailable
    else attempt_on limit decode is_ours lead (status lead before)
        (read lead (some (limit + 1)) mid) (status lead after)

abbrev pub or_else :
    Attempt
    → Journal (List JournaledConversationTurn × Option AggregateStatus)
    → Journal (List JournaledConversationTurn × Option AggregateStatus)
or_else changed rest = rest
or_else (gave_up e) rest = failed e
or_else (loaded turns st) rest = done (turns, st)

-- `_load_events`, for as many attempts as there are
unfoldable pub load_events :
    ℕ
    → (JsonFields → Journal ConversationTurnEvent)
    → (String → Bool)
    → ℕ
    → List (Database × Database × Database)
    → Journal (List JournaledConversationTurn × Option AggregateStatus)
load_events limit decode is_ours lead [] = failed conflict
load_events limit decode is_ours lead (dbs ∷ attempts) =
    or_else (load_attempt limit decode is_ours lead dbs)
      (load_events limit decode is_ours lead attempts)

-- `_find_operation`
unfoldable pub find_operation :
    ℕ → ℕ → String → List JournaledConversationTurn → Journal (Option JournaledConversationTurn)
find_operation session_id operation_id fingerprint [] = done none
find_operation session_id operation_id fingerprint (t ∷ turns) =
    let rest = find_operation session_id operation_id fingerprint turns in
    if not (t.event.operation_id == operation_id)
    then rest
    else if (t.event.session_id == session_id)
        && string_eq.beq t.event.operation_fingerprint fingerprint
    then done (some t)
    else failed operation_conflict
