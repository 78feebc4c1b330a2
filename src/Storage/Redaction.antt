-- ===== src/Storage/Redaction.antt =====
-- `redact_json` of src/pitchbot/storage/privacy.py. Python's `str.casefold` is the parameter
-- `casefold`.
pub mod Laws
mod Tests
use Prim.Native.String.{String}
use pitch_bot.Prelude.{Bool, List, [], ◌∷◌, member, string_eq, if◌then◌else◌}
use pitch_bot.Domain.Json.{
  JsonValue, null, boolean, number, text, array, object, JsonItems, nil, cons, JsonFields, end,
  field,
}

abbrev pub default_sensitive_keys : List String
default_sensitive_keys =
    "address" ∷ "contact" ∷ "contact_number" ∷ "contact_ref" ∷ "display_name" ∷ "email"
    ∷ "full_name" ∷ "mobile" ∷ "name" ∷ "phone" ∷ "phone_number" ∷ "postal_address"
    ∷ "street_address" ∷ "telephone" ∷ "whatsapp_number" ∷ []

abbrev pub is_sensitive : (String → String) → List String → String → Bool
is_sensitive casefold keys key = member (casefold key) keys

unfoldable mutual
  pub redact_json : (String → String) → List String → JsonValue → JsonValue
  redact_json casefold keys null = null
  redact_json casefold keys (boolean b) = boolean b
  redact_json casefold keys (number n) = number n
  redact_json casefold keys (text t) = text t
  redact_json casefold keys (array xs) = array (redact_items casefold keys xs)
  redact_json casefold keys (object fs) = object (redact_fields casefold keys fs)

  pub redact_items : (String → String) → List String → JsonItems → JsonItems
  redact_items casefold keys nil = nil
  redact_items casefold keys (cons v xs) =
      cons (redact_json casefold keys v) (redact_items casefold keys xs)

  pub redact_fields : (String → String) → List String → JsonFields → JsonFields
  redact_fields casefold keys end = end
  redact_fields casefold keys (field k v fs) =
      let child = redact_json casefold keys v in
      let rest = redact_fields casefold keys fs in
      field k (if is_sensitive casefold keys k then text "[REDACTED]" else child) rest
