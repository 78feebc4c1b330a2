-- ===== src/Conversation/Language.antt =====
-- The language that a conversation is held in: `decide_language` and the readings of
-- src/pitchbot/conversation/language.py, and `_resolve_language` of
-- src/pitchbot/conversation/engine.py with the fields of `ConversationState` that it uses.
-- `detect_language` reads the text with regular expressions and the Unicode database; its result is
-- the argument `reading`.
pub mod Laws
mod Tests
use pitch_bot.Prelude.{
  ℕ, ◌+◌, Bool, true, false, not, ◌||◌, Option, none, some, leb, ◌==◌, if◌then◌else◌,
}

pub data LanguageCode : Type 0 where
  english hindi telugu mixed unknown : LanguageCode

abbrev code_of : LanguageCode → ℕ
code_of english = 0
code_of hindi = 1
code_of telugu = 2
code_of mixed = 3
code_of unknown = 4

abbrev pub same : LanguageCode → LanguageCode → Bool
same a b = code_of a == code_of b

abbrev pub same_pending : Option LanguageCode → LanguageCode → Bool
same_pending none b = false
same_pending (some a) b = same a b

pub data LanguageEvidence : Type 0 where
  requested script vocabulary transcriber no_evidence : LanguageEvidence

pub record LanguageReading : Type 0 where
  pub language : Option LanguageCode
  pub evidence : LanguageEvidence

abbrev pub is_request : LanguageReading → Bool
is_request r = elim r.evidence [ requested ↦ true | _ ↦ false ]

pub record LanguageDecision : Type 0 where
  pub language : LanguageCode
  pub switched : Bool
  pub pending : Option LanguageCode
  pub pending_count : ℕ

abbrev pub default_switch_after : ℕ
default_switch_after = 2

-- `switchable_languages`: those of the planner's phrase sets, and the mixed one
abbrev pub switchable : LanguageCode → Bool
switchable unknown = false
switchable _ = true

abbrev stay : LanguageCode → Option LanguageCode → ℕ → LanguageDecision
stay current p n = record { language = current; switched = false; pending = p; pending_count = n }

abbrev switch_to : LanguageCode → LanguageDecision
switch_to l = record { language = l; switched = true; pending = none; pending_count = 0 }

-- the part of `decide_language` behind the test that the reading names a language
abbrev decide_named :
    LanguageCode → LanguageCode → Bool → Option LanguageCode → ℕ → ℕ → LanguageDecision
decide_named current l request pending pending_count switch_after =
    if not (switchable l)
    then stay current pending pending_count
    else if same l current
    then stay current none 0
    else if request
    then switch_to l
    else let count = if same_pending pending l then pending_count + 1 else 1 in
      if leb switch_after count then switch_to l else stay current (some l) count

unfoldable pub decide_language :
    LanguageCode → LanguageReading → Option LanguageCode → ℕ → ℕ → LanguageDecision
decide_language current reading pending pending_count switch_after = elim reading.language [
  | none ↦ stay current pending pending_count
  | some l ↦ decide_named current l (is_request reading) pending pending_count switch_after
]

-- the language fields of `ConversationState`
pub record LanguageState : Type 0 where
  pub language : LanguageCode
  pub declared_language : LanguageCode
  pub pending_language : Option LanguageCode
  pub pending_language_count : ℕ

abbrev pub new_state : LanguageState
new_state = record {
  language = unknown;
  declared_language = unknown;
  pending_language = none;
  pending_language_count = 0;
}

-- the part of `_resolve_language` behind the re-declaration
unfoldable pub detect_turn :
    Bool → LanguageReading → LanguageState → (LanguageCode × Bool) × LanguageState
detect_turn detects reading s =
    if not detects
    then ((s.language, false), s)
    else let d =
        decide_language s.language reading s.pending_language s.pending_language_count
          default_switch_after in
      (
        (d.language, d.switched),
        record s {
          language = d.language;
          pending_language = d.pending;
          pending_language_count = d.pending_count;
        },
      )

unfoldable pub resolve_language :
    Bool → LanguageCode → LanguageReading → LanguageState → (LanguageCode × Bool) × LanguageState
resolve_language detects declared reading s =
    if same s.declared_language unknown
    then detect_turn detects reading
        (record s { declared_language = declared; language = declared })
    else if not (same declared s.declared_language)
    then (
      (declared, not (same declared s.language)),
      record {
        language = declared;
        declared_language = declared;
        pending_language = none;
        pending_language_count = 0;
      },
    )
    else detect_turn detects reading s
