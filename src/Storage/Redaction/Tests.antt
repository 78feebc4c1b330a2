-- ===== src/Storage/Redaction/Tests.antt =====
-- A record of a lead, redacted.
use Prim.Native.String.{String}
use pitch_bot.Prelude.{◌≡◌, refl, member}
use pitch_bot.Domain.Json.{JsonValue, text, number, array, object, nil, cons, end, field}
use pitch_bot.Storage.Redaction.{
  default_sensitive_keys, is_sensitive, redact_json, redact_items, redact_fields,
}
use pitch_bot.Storage.Redaction.Laws.{Agrees, redact_hides_exactly}

abbrev same_case : String → String
same_case s = s

abbrev lead_with : JsonValue → JsonValue
lead_with phone = object (
    field "city" (text "Pune")
      (field "people" (array (cons (object (field "phone" phone end)) nil)) end))

nested_phone_hidden :
    redact_json same_case default_sensitive_keys (lead_with (number "98"))
    ≡ lead_with (text "[REDACTED]")
unfolding redact_json redact_items redact_fields member
nested_phone_hidden = refl

redact_hides_exactly_example :
    let shown = redact_json same_case default_sensitive_keys in
    let hidden = is_sensitive same_case default_sensitive_keys in
    Agrees hidden (lead_with (number "98")) (shown (lead_with (number "98")))
    × ((w : JsonValue)
        → Agrees hidden (lead_with (number "98")) w
        → shown (lead_with (number "98")) ≡ shown w)
redact_hides_exactly_example =
    redact_hides_exactly same_case default_sensitive_keys (lead_with (number "98"))
