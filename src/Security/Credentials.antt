-- ===== src/Security/Credentials.antt =====
-- src/pitchbot/security/credentials.py: the configured keys, and who presents one.
-- `hmac.compare_digest` on the UTF-8 bytes is equality of the texts, since the encoding is injective;
-- how long it takes is not modelled. `is_space` tells the characters that `str.strip` removes.
pub mod Laws
mod Tests
use pitch_bot.Prelude.{
  ℕ, Bool, true, false, not, ◌||◌, Option, none, some, List, [], ◌∷◌, ◌++◌, map, any, length, ltb,
  if◌then◌else◌, is_empty, Text, text_eq, split, partition, strip,
}

abbrev pub min_secret_length : ℕ
min_secret_length = 16

pub data KeyError : Type 0 where
  malformed short_secret duplicate_name duplicate_secret : KeyError

pub data Result {ℓ} (A : Type ℓ) : Type ℓ where
  ok : A → Result A
  err : KeyError → Result A

abbrev pub Entry : Type 0
Entry = Text × Text

-- name in seen
abbrev pub seen : Text → List Text → Bool
seen t ts = any (text_eq.beq t) ts

-- the locals of the loop
pub record Parsed : Type 0 where
  pub entries : List Entry
  pub seen_names : List Text
  pub seen_secrets : List Text

abbrev pub nothing_parsed : Parsed
nothing_parsed = record { entries = []; seen_names = []; seen_secrets = [] }

unfoldable pub add_entry : Text → Bool → Text → Parsed → Result Parsed
add_entry name separator secret p =
    if not separator || (is_empty name || is_empty secret)
    then err malformed
    else if ltb (length secret) min_secret_length
    then err short_secret
    else if seen name p.seen_names
    then err duplicate_name
    else if seen secret p.seen_secrets
    then err duplicate_secret
    else ok (record {
      entries = p.entries ++ (name, secret) ∷ [];
      seen_names = name ∷ p.seen_names;
      seen_secrets = secret ∷ p.seen_secrets;
    })

module _ (is_space : ℕ → Bool) where
  -- the body of the loop
  unfoldable pub parse_item : Text → Parsed → Result Parsed
  parse_item item p =
      let raw = strip is_space item in
      if is_empty raw
      then ok p
      else let (name, separator, secret) = partition b':' raw in
        add_entry (strip is_space name) separator (strip is_space secret) p

  unfoldable pub parse_items : List Text → Parsed → Result Parsed
  parse_items [] p = ok p
  parse_items (item ∷ items) p = elim (parse_item item p) [
    | ok q ↦ parse_items items q
    | err e ↦ err e
  ]

  unfoldable pub parse_api_keys : Text → Result (List Entry)
  parse_api_keys value = elim (parse_items (split b',' value) nothing_parsed) [
    | ok p ↦ ok p.entries
    | err e ↦ err e
  ]

-- CredentialStore.identify; the loop goes through every entry, and a later match replaces an earlier
unfoldable pub match_entries : Text → Option Text → List Entry → Option Text
match_entries candidate matched [] = matched
match_entries candidate matched ((name, secret) ∷ es) =
    match_entries candidate (if text_eq.beq candidate secret then some name else matched) es

unfoldable pub identify : List Entry → Option Text → Option Text
identify entries none = none
identify [] (some candidate) = none
identify (e ∷ es) (some candidate) = match_entries candidate none (e ∷ es)

-- CredentialStore.enforcing
abbrev pub enforcing : List Entry → Bool
enforcing entries = not (is_empty entries)
