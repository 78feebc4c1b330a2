-- ===== src/Whatsapp/Webhook/Tests.antt =====
-- Two deliveries of which the second is tried again, for webhook.py.
use pitch_bot.Prelude.{latest, String, ◌≡◌, member, refl, none, some, List, [], ◌∷◌, map, length}
use mathlib.Core.List.{flatten}
use pitch_bot.Domain.Json.{
  JsonValue, text, array, object, nil, cons, JsonFields, end, field, get_field,
}
use pitch_bot.Whatsapp.Webhook.{
  InboundMessage, Readings, parse_inbound, text_of, of_entries, items, objects, of_changes,
  messages_of_change, fields_of, messages_of, one_message, deliver, deliver_within, remember,
  new_receiver, dedupe_capacity,
}
use pitch_bot.Whatsapp.Webhook.Laws.{ids, accepted, deliver_all, deliver_refines}

abbrev message : String → InboundMessage
message id = record {
  message_id = id;
  contact_ref = "421900";
  profile_name = none;
  text_body = some "ano";
  message_type = "text";
  sent_at = 0;
}

abbrev readings : Readings
readings = record { str = λ v. "text"; from_timestamp = λ s. none; now = 0 }

-- {key: [value]}
abbrev wrapped : String → JsonValue → JsonFields
wrapped key v = field key (array (cons v nil)) end

abbrev body : JsonValue
body =
    let raw = object (field "id" (text "a") (field "from" (text "421900") end)) in
    let change =
      object
        (field "field" (text "messages") (field "value" (object (wrapped "messages" raw)) end)) in
    object (
      field "object" (text "whatsapp_business_account")
        (wrapped "entry" (object (wrapped "changes" change))))

body_read : map (λ m. m.message_id) (parse_inbound readings body) ≡ "a" ∷ []
unfolding parse_inbound text_of get_field of_entries items objects of_changes messages_of_change
    fields_of messages_of one_message
body_read = refl

abbrev retried : List (List InboundMessage)
retried = (message "a" ∷ message "b" ∷ []) ∷ (message "b" ∷ message "c" ∷ []) ∷ []

repeats_refused : (deliver_all retried new_receiver).0 ≡ 3
unfolding deliver_all deliver deliver_within member remember
repeats_refused = refl

deliver_refines_example :
    ((deliver_all retried new_receiver).1.received
      ≡ accepted dedupe_capacity (message "a" ∷ message "b" ∷ message "b" ∷ message "c" ∷ []) [])
    × ((deliver_all retried new_receiver).1.seen
        ≡ latest dedupe_capacity (ids (deliver_all retried new_receiver).1.received))
    × ((deliver_all retried new_receiver).0 ≡ length (deliver_all retried new_receiver).1.received)
unfolding flatten
deliver_refines_example = deliver_refines retried
