-- ===== src/Domain/Json.antt =====
-- `JsonValue` of src/pitchbot/domain/models.py. A number is its text; the keys of an object are
-- distinct, as those of a dict.
use Prim.Native.String.{String}
use pitch_bot.Prelude.{Bool, Option, none, some, string_eq, if◌then◌else◌}

mutual
  pub data JsonValue : Type 0 where
    null : JsonValue
    boolean : Bool → JsonValue
    number : String → JsonValue
    text : String → JsonValue
    array : JsonItems → JsonValue
    object : JsonFields → JsonValue

  pub data JsonItems : Type 0 where
    nil : JsonItems
    cons : JsonValue → JsonItems → JsonItems

  pub data JsonFields : Type 0 where
    end : JsonFields
    field : String → JsonValue → JsonFields → JsonFields

-- value.get(key)
unfoldable pub get_field : String → JsonFields → Option JsonValue
get_field key end = none
get_field key (field k v fs) = if string_eq.beq k key then some v else get_field key fs
