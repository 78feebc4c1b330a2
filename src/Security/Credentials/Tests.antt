-- ===== src/Security/Credentials/Tests.antt =====
-- Two keys, and who presents one.
use Prim.Native.Char.{code}
use pitch_bot.Prelude.{
  ℕ, ◌≡◌, refl, Bool, ◌==◌, String, List, [], ◌∷◌, Text, text_beq, split, partition, strip,
}
use pitch_bot.Security.Credentials.{
  ok, err, short_secret, Entry, add_entry, parse_item, parse_items, parse_api_keys,
}
use pitch_bot.Security.Credentials.Laws.{EntriesOk, parse_api_keys-EntriesOk}

abbrev codes : String → Text
codes String.[] = []
codes (String.◌∷◌ c s) = code c ∷ codes s

abbrev blank : ℕ → Bool
blank c = c == 32

abbrev two_keys : Text
two_keys = codes "web:0123456789abcdef, ops:fedcba9876543210"

abbrev two_entries : List Entry
two_entries = (codes "web", codes "0123456789abcdef") ∷ (codes "ops", codes "fedcba9876543210") ∷ []

two_keys_parsed : parse_api_keys blank two_keys ≡ ok two_entries
unfolding parse_api_keys parse_items parse_item add_entry split partition strip text_beq
two_keys_parsed = refl

short_refused : parse_api_keys blank (codes "web:short") ≡ err short_secret
unfolding parse_api_keys parse_items parse_item add_entry split partition strip text_beq
short_refused = refl

parse_api_keys-EntriesOk_example : EntriesOk two_entries
parse_api_keys-EntriesOk_example =
    parse_api_keys-EntriesOk blank two_keys two_entries two_keys_parsed
