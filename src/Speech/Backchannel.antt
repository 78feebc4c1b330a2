-- ===== src/Speech/Backchannel.antt =====
-- What the agent says while the buyer waits: `Backchannel` of src/pitchbot/speech/backchannel.py, and
-- `ThinkingFiller._fill` of src/pitchbot/simulator/speech_output.py, which asks it. Durations are
-- milliseconds. What the code reads while it waits is a `Wait` for each threshold: how long the work
-- has taken before and after it sleeps, whether the reply was ready in between, and the language.
pub mod Laws
mod Tests
use pitch_bot.Prelude.{
  String, ℕ, ◌+◌, ◌-◌, ◌%◌, ◌≤◌, Bool, true, false, not, ◌&&◌, Option, none, some, List, [], ◌∷◌,
  min, max, length, leb, ltb, ◌==◌, if◌then◌else◌,
}
use pitch_bot.Conversation.Language.{LanguageCode, english, hindi, telugu, mixed, unknown}

abbrev pub default_min_work_ms : ℕ
default_min_work_ms = 200

pub record BackchannelPhrases : Type 0 where
  pub brief : List String
  pub patient : List String

unfoldable pub phrases_of : LanguageCode → Option BackchannelPhrases
phrases_of english = some (record {
  brief = "Hmm." ∷ "Got it." ∷ "Right." ∷ [];
  patient = "Let me see." ∷ "One moment." ∷ [];
})
phrases_of hindi = some (record {
  brief = "अच्छा।" ∷ "समझ गया।" ∷ "हूँ।" ∷ [];
  patient = "एक मिनट।" ∷ "देखता हूँ।" ∷ [];
})
phrases_of telugu = some (record {
  brief = "అలాగా." ∷ "అర్థమైంది." ∷ "సరి." ∷ [];
  patient = "ఒక నిమిషం." ∷ "చూస్తాను." ∷ [];
})
phrases_of mixed = some (record {
  brief = "Hmm." ∷ "Achcha." ∷ "Samajh gaya." ∷ [];
  patient = "Ek minute." ∷ "Dekhta hoon." ∷ [];
})
phrases_of unknown = none

pub record Backchannel : Type 0 where
  pub first_after_ms : ℕ
  pub second_after_ms : ℕ
  pub min_work_ms : Option ℕ
  pub max_per_turn : ℕ
  pub cursor : ℕ
  pub said_this_turn : ℕ

abbrev pub new_backchannel : Backchannel
new_backchannel = record {
  first_after_ms = 700;
  second_after_ms = 4500;
  min_work_ms = none;
  max_per_turn = 2;
  cursor = 0;
  said_this_turn = 0;
}

-- what the constructor does not refuse
abbrev pub backchannel_ok : Backchannel → Bool
backchannel_ok b = ltb b.first_after_ms b.second_after_ms && leb 1 b.max_per_turn

unfoldable pub work_floor_ms : Backchannel → ℕ
work_floor_ms b = elim b.min_work_ms [
  | some least ↦ least
  | none ↦ min default_min_work_ms b.first_after_ms
]

-- A floor is not below 0, so neither is the greater of the two.
unfoldable pub work_target_ms : Backchannel → ℕ → ℕ → ℕ
work_target_ms b target_ms already_silent_ms = max (target_ms - already_silent_ms) (work_floor_ms b)

unfoldable pub begin_turn : Backchannel → Backchannel
begin_turn b = record b { said_this_turn = 0 }

-- xs[index], which is in range
unfoldable pub item_at : List String → ℕ → String
item_at [] index = ""
item_at (x ∷ xs) index = let later = item_at xs (index - 1) in if index == 0 then x else later

abbrev pub rotate : List String → ℕ → String
rotate xs cursor = item_at xs (cursor % length xs)

abbrev pub say : String → Backchannel → Option String × Backchannel
say phrase b =
    (some phrase, record b { said_this_turn = b.said_this_turn + 1; cursor = b.cursor + 1 })

unfoldable pub due : ℕ → LanguageCode → Backchannel → Option String × Backchannel
due waited_ms language b = elim (phrases_of language) [
  | none ↦ (none, b)
  | some phrases ↦
      if leb b.max_per_turn b.said_this_turn
      then (none, b)
      else if b.said_this_turn == 0
      then (if ltb waited_ms b.first_after_ms
          then (none, b)
          else say (rotate phrases.brief b.cursor) b)
      else (if ltb waited_ms b.second_after_ms
          then (none, b)
          else say (rotate phrases.patient b.cursor) b)
]

pub record Wait : Type 0 where
  pub elapsed_before_ms : ℕ
  pub reply_ready : Bool
  pub elapsed_after_ms : ℕ
  pub spoken : LanguageCode

-- a phrase, and how long the work had taken when it was said
pub record Filler : Type 0 where
  pub phrase : String
  pub work_ms : ℕ

abbrev pub say_answer : ℕ → Option String → List Filler × Backchannel → List Filler × Backchannel
say_answer work none rest = rest
say_answer work (some phrase) rest = (record { phrase = phrase; work_ms = work } ∷ rest.0, rest.1)

-- the loop of `_fill`, over the thresholds with what is read for each
unfoldable pub fill_targets : ℕ → List (ℕ × Wait) → Backchannel → List Filler × Backchannel
fill_targets silent [] b = ([], b)
fill_targets silent ((target, wait) ∷ targets) b =
    let work_target = work_target_ms b target silent in
    let work = max work_target wait.elapsed_after_ms in
    let answer = due (silent + work) wait.spoken b in
    let rest = fill_targets silent targets answer.1 in
    if ltb wait.elapsed_before_ms work_target && wait.reply_ready
    then ([], b)
    else say_answer work (answer.0) rest

-- `start`, which begins the turn, and the whole of `_fill`
unfoldable pub fill : ℕ → Wait → Wait → Backchannel → List Filler × Backchannel
fill silent first second b =
    fill_targets silent ((b.first_after_ms, first) ∷ (b.second_after_ms, second) ∷ [])
      (begin_turn b)
