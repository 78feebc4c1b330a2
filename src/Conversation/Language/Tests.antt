-- ===== src/Conversation/Language/Tests.antt =====
-- The language of a conversation, run at concrete turns.
use pitch_bot.Prelude.{◌≡◌, ◌≢◌, ◌↔◌, ◌⊎◌, true, false, none, some, arith}
use pitch_bot.Conversation.Language.{
  english, hindi, unknown, is_request, LanguageReading, requested, script, LanguageState,
  resolve_language,
}
use pitch_bot.Conversation.Language.Laws.{
  Inv, Standing, Reads, switch_exact, two_turns_switch, redeclaration_obeyed,
}

abbrev in_hindi : LanguageReading
in_hindi = record { language = some hindi; evidence = script }

abbrev asks_hindi : LanguageReading
asks_hindi = record { language = some hindi; evidence = requested }

abbrev in_english : LanguageState
in_english = record {
  language = english;
  declared_language = english;
  pending_language = none;
  pending_language_count = 0;
}

abbrev halfway : LanguageState
halfway = record in_english { pending_language = some hindi; pending_language_count = 1 }

in_english-Inv : Inv in_english
in_english-Inv = ground arith

halfway-Inv : Inv halfway
halfway-Inv = ground arith

in_english-Standing : Standing english in_english
in_english-Standing = ground arith

halfway-Standing : Standing english halfway
halfway-Standing = ground arith

in_hindi-Reads : Reads in_hindi hindi
in_hindi-Reads = ground arith

asks_hindi-Reads : Reads asks_hindi hindi
asks_hindi-Reads = ground arith

english_not_hindi : english ≢ hindi
english_not_hindi = ground arith

english_not_unknown : english ≢ unknown
english_not_unknown = ground arith

hindi_not_english : hindi ≢ english
hindi_not_english = ground arith

switch_exact_example :
    let out = resolve_language true english in_hindi halfway in
    ((out.0.1 ≡ true) ↔ ((is_request in_hindi ≡ true) ⊎ (halfway.pending_language ≡ some hindi)))
    × ((out.0.1 ≡ true) ↔ (out.0.0 ≡ hindi))
    × ((out.0.1 ≡ true) ↔ (out.1.pending_language ≡ none))
switch_exact_example =
    switch_exact english in_hindi hindi halfway halfway-Inv halfway-Standing in_hindi-Reads
      english_not_hindi

two_turns_switch_example :
    (resolve_language true english asks_hindi
      (resolve_language true english in_hindi in_english).1).0.0
    ≡ hindi
two_turns_switch_example =
    two_turns_switch english in_hindi asks_hindi hindi in_english in_english-Inv in_english-Standing
      in_hindi-Reads asks_hindi-Reads

redeclaration_obeyed_example :
    let out = resolve_language true hindi in_hindi halfway in
    (out.0.0 ≡ hindi)
    × ((out.0.1 ≡ false) ↔ (halfway.language ≡ hindi))
    × (out.1.pending_language ≡ none)
    × (out.1.language ≡ hindi)
redeclaration_obeyed_example =
    redeclaration_obeyed true hindi in_hindi halfway english_not_unknown hindi_not_english
