-- ===== src/Storage/Redaction/Laws.antt =====
-- What a redacted value hides and what it keeps.
use Prim.Native.String.{String}
use pitch_bot.Prelude.{Bool, true, false, List, ◌≡◌, refl, ap, string_eq, Bool-cases, inl, inr}
use pitch_bot.Domain.Json.{
  JsonValue, null, boolean, number, text, array, object, JsonItems, nil, cons, JsonFields, end,
  field,
}
use pitch_bot.Storage.Redaction.{is_sensitive, redact_json, redact_items, redact_fields}

-- Two values of one shape with the same keys, which are equal but under hidden keys.
mutual
  pub data Agrees (hidden : String → Bool) : JsonValue → JsonValue → Type 0 where
    agrees_null : Agrees hidden null null
    agrees_boolean : (b : Bool) → Agrees hidden (boolean b) (boolean b)
    agrees_number : (n : String) → Agrees hidden (number n) (number n)
    agrees_text : (t : String) → Agrees hidden (text t) (text t)
    agrees_array :
        {xs ys : JsonItems} → AgreesItems hidden xs ys → Agrees hidden (array xs) (array ys)
    agrees_object :
        {fs gs : JsonFields} → AgreesFields hidden fs gs → Agrees hidden (object fs) (object gs)

  pub data AgreesItems (hidden : String → Bool) : JsonItems → JsonItems → Type 0 where
    agrees_nil : AgreesItems hidden nil nil
    agrees_cons :
        {v w : JsonValue} {xs ys : JsonItems}
        → Agrees hidden v w
        → AgreesItems hidden xs ys
        → AgreesItems hidden (cons v xs) (cons w ys)

  pub data AgreesFields (hidden : String → Bool) : JsonFields → JsonFields → Type 0 where
    agrees_end : AgreesFields hidden end end
    agrees_hidden :
        {fs gs : JsonFields} (k : String) (v w : JsonValue)
        → hidden k ≡ true
        → AgreesFields hidden fs gs
        → AgreesFields hidden (field k v fs) (field k w gs)
    agrees_shown :
        {v w : JsonValue} {fs gs : JsonFields} (k : String)
        → hidden k ≡ false
        → Agrees hidden v w
        → AgreesFields hidden fs gs
        → AgreesFields hidden (field k v fs) (field k w gs)

module _ (casefold : String → String) (keys : List String) where
  abbrev hidden : String → Bool
  hidden = is_sensitive casefold keys

  mutual
    unfolding redact_json redact_items redact_fields

    value-Agrees : (v : JsonValue) → Agrees hidden v (redact_json casefold keys v)
    value-Agrees null = agrees_null
    value-Agrees (boolean b) = agrees_boolean b
    value-Agrees (number n) = agrees_number n
    value-Agrees (text t) = agrees_text t
    value-Agrees (array xs) = agrees_array (items-Agrees xs)
    value-Agrees (object fs) = agrees_object (fields-Agrees fs)

    items-Agrees : (xs : JsonItems) → AgreesItems hidden xs (redact_items casefold keys xs)
    items-Agrees nil = agrees_nil
    items-Agrees (cons v xs) = agrees_cons (value-Agrees v) (items-Agrees xs)

    fields-Agrees : (fs : JsonFields) → AgreesFields hidden fs (redact_fields casefold keys fs)
    fields-Agrees end = agrees_end
    fields-Agrees (field k v fs) = elim (Bool-cases (hidden k)) [
      | inl h ↦ rw (h) (agrees_hidden k v (text "[REDACTED]") h (fields-Agrees fs))
      | inr h ↦ rw (h) (agrees_shown k h (value-Agrees v) (fields-Agrees fs))
    ]

  mutual
    unfolding redact_json redact_items redact_fields

    values-redact :
        {v w : JsonValue}
        → Agrees hidden v w
        → redact_json casefold keys v ≡ redact_json casefold keys w
    values-redact agrees_null = refl
    values-redact (agrees_boolean b) = refl
    values-redact (agrees_number n) = refl
    values-redact (agrees_text t) = refl
    values-redact (agrees_array a) = ap array (items-redact a)
    values-redact (agrees_object a) = ap object (fields-redact a)

    items-redact :
        {xs ys : JsonItems}
        → AgreesItems hidden xs ys
        → redact_items casefold keys xs ≡ redact_items casefold keys ys
    items-redact agrees_nil = refl
    items-redact (agrees_cons a b) = rw (values-redact a, items-redact b) refl

    fields-redact :
        {fs gs : JsonFields}
        → AgreesFields hidden fs gs
        → redact_fields casefold keys fs ≡ redact_fields casefold keys gs
    fields-redact agrees_end = refl
    fields-redact (agrees_hidden k v w h b) = rw (h, fields-redact b) refl
    fields-redact (agrees_shown k h a b) = rw (h, values-redact a, fields-redact b) refl

  -- A redacted value has the shape and the keys of the value, and its values but under sensitive
  -- keys, at any depth; and values that differ only there are redacted to the same value, so that
  -- nothing of what stands under a sensitive key can be read from the result.
  pub redact_hides_exactly :
      (v : JsonValue)
      → Agrees hidden v (redact_json casefold keys v)
        × ((w : JsonValue)
            → Agrees hidden v w
            → redact_json casefold keys v ≡ redact_json casefold keys w)
  redact_hides_exactly v = (value-Agrees v, λ w a. values-redact a)
