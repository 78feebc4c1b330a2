-- ===== src/Whatsapp/Webhook.antt =====
-- Inbound messages, src/pitchbot/whatsapp/webhook.py: `parse_inbound` and `WebhookReceiver.deliver`.
-- What the code takes from Python is a field of `Readings`: `str` of a value, the number of a text
-- of digits as a time, and the clock; a time is counted from the first moment of a datetime on. A
-- number out of a datetime's range, for which Python raises an error that `_timestamp` does not
-- catch, is left out. The routes, which check signatures and decode the body, are calls of
-- libraries. `on_message`, which does not fail, is called for the messages that are added to
-- `received`, in their order.
pub mod Laws
mod Tests
use Prim.Native.String.{String}
use pitch_bot.Prelude.{
  ℕ, suc, ◌+◌, Bool, true, false, Option, none, some, List, [], ◌∷◌, ◌++◌, map, drop, length, ltb,
  string_eq, Dict, get, put, member, if◌then◌else◌,
}
use pitch_bot.Domain.Json.{
  JsonValue, text, array, object, JsonItems, nil, cons, JsonFields, get_field,
}

abbrev pub dedupe_capacity : ℕ
dedupe_capacity = 4096

pub record InboundMessage : Type 0 where
  pub message_id : String
  pub contact_ref : String
  pub profile_name : Option String
  pub text_body : Option String
  pub message_type : String
  pub sent_at : ℕ

pub record Readings : Type 0 where
  pub str : JsonValue → String
  pub from_timestamp : String → Option ℕ
  pub now : ℕ

-- the elements that are objects, of a value that is an array
unfoldable pub objects : JsonItems → List JsonFields
objects nil = []
objects (cons (object fs) xs) = fs ∷ objects xs
objects (cons _ xs) = objects xs

unfoldable pub items : Option JsonValue → List JsonFields
items (some (array xs)) = objects xs
items _ = []

unfoldable pub text_of : Option JsonValue → Option String
text_of (some (text t)) = some t
text_of _ = none

unfoldable pub fields_of : Option JsonValue → Option JsonFields
fields_of (some (object fs)) = some fs
fields_of _ = none

abbrev pub is_text : Option JsonValue → String → Bool
is_text v t = elim (text_of v) [ none ↦ false | some s ↦ string_eq.beq s t ]

-- the name of one contact, with its id, if both are texts
unfoldable pub contact_name : JsonFields → Option (String × String)
contact_name contact = elim (text_of (get_field "wa_id" contact)) [
  | none ↦ none
  | some wa_id ↦ elim (fields_of (get_field "profile" contact)) [
    | none ↦ none
    | some profile ↦ elim (text_of (get_field "name" profile)) [
      | none ↦ none
      | some name ↦ some (wa_id, name)
    ]
  ]
]

unfoldable pub add_names : List JsonFields → Dict String String → Dict String String
add_names [] names = names
add_names (contact ∷ contacts) names =
    add_names contacts
      (elim (contact_name contact) [ none ↦ names | some (wa_id, name) ↦ put wa_id name names ])

unfoldable pub profile_names : JsonFields → Dict String String
profile_names value = add_names (items (get_field "contacts" value)) []

unfoldable pub message_text : JsonFields → Option String
message_text raw = elim (fields_of (get_field "text" raw)) [
  | none ↦ none
  | some body ↦ text_of (get_field "body" body)
]

abbrev pub type_text : Readings → Option JsonValue → String
type_text readings none = "unknown"
type_text readings (some v) = readings.str v

unfoldable pub timestamp : Readings → Option JsonValue → ℕ
timestamp readings none = readings.now
timestamp readings (some v) = elim (readings.from_timestamp (readings.str v)) [
  | none ↦ readings.now
  | some t ↦ t
]

unfoldable pub one_message : Readings → Dict String String → JsonFields → Option InboundMessage
one_message readings names raw = elim (text_of (get_field "id" raw)) [
  | none ↦ none
  | some message_id ↦ elim (text_of (get_field "from" raw)) [
    | none ↦ none
    | some sender ↦ some (record {
      message_id = message_id;
      contact_ref = sender;
      profile_name = get sender names;
      text_body = message_text raw;
      message_type = type_text readings (get_field "type" raw);
      sent_at = timestamp readings (get_field "timestamp" raw);
    })
  ]
]

unfoldable pub messages_of : Readings → Dict String String → List JsonFields → List InboundMessage
messages_of readings names [] = []
messages_of readings names (raw ∷ raws) =
    let rest = messages_of readings names raws in
    elim (one_message readings names raw) [ none ↦ rest | some m ↦ m ∷ rest ]

unfoldable pub messages_of_change : Readings → JsonFields → List InboundMessage
messages_of_change readings change =
    if is_text (get_field "field" change) "messages"
    then (elim (fields_of (get_field "value" change)) [
      | none ↦ []
      | some value ↦ messages_of readings (profile_names value) (items (get_field "messages" value))
    ])
    else []

unfoldable pub of_changes : Readings → List JsonFields → List InboundMessage
of_changes readings [] = []
of_changes readings (change ∷ changes) =
    messages_of_change readings change ++ of_changes readings changes

unfoldable pub of_entries : Readings → List JsonFields → List InboundMessage
of_entries readings [] = []
of_entries readings (entry ∷ entries) =
    of_changes readings (items (get_field "changes" entry)) ++ of_entries readings entries

unfoldable pub parse_inbound : Readings → JsonValue → List InboundMessage
parse_inbound readings (object payload) =
    if is_text (get_field "object" payload) "whatsapp_business_account"
    then of_entries readings (items (get_field "entry" payload))
    else []
parse_inbound readings _ = []

-- `_seen` by the order of insertion, the oldest id first
pub record WebhookReceiver : Type 0 where
  pub seen : List String
  pub received : List InboundMessage

abbrev pub new_receiver : WebhookReceiver
new_receiver = record { seen = []; received = [] }

-- the id is remembered, and the oldest one forgotten when there are too many
unfoldable pub remember : ℕ → String → List String → List String
remember capacity id seen =
    let grown = seen ++ id ∷ [] in if ltb capacity (length grown) then drop 1 grown else grown

unfoldable pub deliver_within : ℕ → List InboundMessage → WebhookReceiver → ℕ × WebhookReceiver
deliver_within capacity [] w = (0, w)
deliver_within capacity (m ∷ ms) w =
    let known = member m.message_id w.seen in
    let next : WebhookReceiver = if known then w else record {
      seen = remember capacity m.message_id w.seen;
      received = w.received ++ m ∷ [];
    } in
    let rest = deliver_within capacity ms next in ((if known then 0 else 1) + rest.0, rest.1)

unfoldable pub deliver : List InboundMessage → WebhookReceiver → ℕ × WebhookReceiver
deliver = deliver_within dedupe_capacity
