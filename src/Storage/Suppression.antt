-- ===== src/Storage/Suppression.antt =====
-- `SqlAlchemySuppressionRepository` of src/pitchbot/storage/repository.py. `str.strip` with
-- `str.casefold` is the parameter `fold`, and `str.strip` the parameter `strip`. `none` is the
-- `ValueError` of an empty text.
pub mod Laws
mod Tests
use Prim.Native.String.{String}
use pitch_bot.Prelude.{
  ℕ, Bool, true, false, ◌&&◌, ◌||◌, Option, none, some, List, [], ◌∷◌, ◌++◌, ◌==◌, string_eq,
  if◌then◌else◌,
}
use pitch_bot.Storage.Models.{SuppressionRecord, Database}

abbrev pub is_empty_text : String → Bool
is_empty_text s = string_eq.beq s ""

unfoldable pub suppress :
    (String → String)
    → (String → String)
    → ℕ
    → ℕ
    → String
    → Bool
    → String
    → ℕ
    → Database
    → Option (ℕ × Database)
suppress fold strip id lead channel suppressed reason now db =
    let row : SuppressionRecord = record {
      suppression_id = id;
      lead_id = lead;
      channel = fold channel;
      suppressed = suppressed;
      reason = strip reason;
      occurred_at = now;
    } in
    if is_empty_text (fold channel) || is_empty_text (strip reason)
    then none
    else some (id, record db { suppressions = db.suppressions ++ row ∷ [] })

abbrev pub concerns : ℕ → String → SuppressionRecord → Bool
concerns lead channel r = (r.lead_id == lead) && string_eq.beq r.channel channel

-- the newest row that the query finds
unfoldable pub latest_state : ℕ → String → List SuppressionRecord → Option Bool
latest_state lead channel [] = none
latest_state lead channel (r ∷ rs) = elim (latest_state lead channel rs) [
  | some b ↦ some b
  | none ↦ if concerns lead channel r then some r.suppressed else none
]

abbrev pub is_true : Option Bool → Bool
is_true none = false
is_true (some b) = b

unfoldable pub is_suppressed : (String → String) → ℕ → String → Database → Option Bool
is_suppressed fold lead channel db =
    if is_empty_text (fold channel)
    then none
    else some (
        is_true (latest_state lead "all" db.suppressions)
        || is_true (latest_state lead (fold channel) db.suppressions))
