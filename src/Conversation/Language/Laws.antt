-- ===== src/Conversation/Language/Laws.antt =====
-- When the conversation changes its language, and what it carries from turn to turn.
use pitch_bot.Prelude.{◌<◌, ◌==◌, ◌≡◌, ◌≢◌, ◌↔◌, ◌⊎◌, Bool, true, false, none, some, is_none, arith}
use pitch_bot.Conversation.Language.{
  LanguageCode, unknown, same, same_pending, LanguageReading, is_request, switchable,
  decide_language, LanguageState, new_state, detect_turn, resolve_language, default_switch_after,
}

pub same_iff : (a b : LanguageCode) → (same a b ≡ true) ↔ (a ≡ b)
same_iff a b = ground arith

-- What a checkpoint is checked for, and more: a candidate and its count agree, the candidate is a
-- language that can be switched to, and it has not had its turns yet.
pub record Inv (s : LanguageState) : Type 0 where
  pub agree : is_none s.pending_language ≡ (s.pending_language_count == 0)
  pub below : s.pending_language_count < default_switch_after
  pub speakable : same_pending s.pending_language unknown ≡ false

pub new_state-Inv : Inv new_state
new_state-Inv = ground arith

detect_turn-Inv :
    (detects : Bool) (reading : LanguageReading) (s : LanguageState)
    → Inv s
    → Inv (detect_turn detects reading s).1
unfolding detect_turn decide_language
detect_turn-Inv detects reading s h = ground arith

-- A turn keeps the candidate and its count in agreement, the count below the turns that a switch
-- takes, and the candidate a language that can be spoken.
pub resolve_language-Inv :
    (detects : Bool) (declared : LanguageCode) (reading : LanguageReading) (s : LanguageState)
    → Inv s
    → Inv (resolve_language detects declared reading s).1
unfolding resolve_language
resolve_language-Inv detects declared reading s h =
    let seeded = record s { declared_language = declared; language = declared } in
    let a = detect_turn-Inv detects reading s h in
    let b =
      detect_turn-Inv detects reading seeded
        (record { agree = h.agree; below = h.below; speakable = h.speakable }) in
    ground arith

-- A turn of a session whose declaration stands.
pub record Standing (declared : LanguageCode) (s : LanguageState) : Type 0 where
  pub known : declared ≢ unknown
  pub declared_before : s.declared_language ≡ declared

pub record Reads (reading : LanguageReading) (l : LanguageCode) : Type 0 where
  pub named : reading.language ≡ some l
  pub ok : switchable l ≡ true

resolve-Standing :
    (declared : LanguageCode) (reading : LanguageReading) (s : LanguageState)
    → Standing declared s
    → resolve_language true declared reading s ≡ detect_turn true reading s
unfolding resolve_language
resolve-Standing declared reading s h = ground arith

-- With the detection of switches on, in a session whose language state is valid and whose declaration
-- stands, a turn that names another language that can be spoken switches to it exactly when it is a request or the turn before left that language as the
-- candidate, and a candidate is left exactly when it does not switch.
pub switch_exact :
    (declared : LanguageCode) (reading : LanguageReading) (l : LanguageCode) (s : LanguageState)
    → Inv s
    → Standing declared s
    → Reads reading l
    → s.language ≢ l
    → let out = resolve_language true declared reading s in
      ((out.0.1 ≡ true) ↔ ((is_request reading ≡ true) ⊎ (s.pending_language ≡ some l)))
      × ((out.0.1 ≡ true) ↔ (out.0.0 ≡ l))
      × ((out.0.1 ≡ true) ↔ (out.1.pending_language ≡ none))
unfolding detect_turn decide_language
switch_exact declared reading l s inv h r other =
    let e = resolve-Standing declared reading s h in ground arith

first_turn :
    (declared : LanguageCode) (reading : LanguageReading) (l : LanguageCode) (s : LanguageState)
    → Standing declared s
    → Reads reading l
    → let next = (resolve_language true declared reading s).1 in
      ((next.language ≡ l) ⊎ (next.pending_language ≡ some l)) × (next.declared_language ≡ declared)
unfolding detect_turn decide_language
first_turn declared reading l s h r = let e = resolve-Standing declared reading s h in ground arith

second_turn :
    (declared : LanguageCode) (reading : LanguageReading) (l : LanguageCode) (s : LanguageState)
    → Inv s
    → Standing declared s
    → Reads reading l
    → (s.language ≡ l) ⊎ (s.pending_language ≡ some l)
    → (resolve_language true declared reading s).0.0 ≡ l
unfolding detect_turn decide_language
second_turn declared reading l s inv h r c =
    let e = resolve-Standing declared reading s h in ground arith

-- In a session whose declaration stands, the second of two turns in a row that name the same
-- language that can be spoken is answered in it.
pub two_turns_switch :
    (declared : LanguageCode) (first : LanguageReading) (second : LanguageReading)
    (l : LanguageCode) (s : LanguageState)
    → Inv s
    → Standing declared s
    → Reads first l
    → Reads second l
    → (resolve_language true declared second (resolve_language true declared first s).1).0.0 ≡ l
two_turns_switch declared first second l s inv h r1 r2 =
    let next = (resolve_language true declared first s).1 in
    let a = first_turn declared first l s h r1 in
    second_turn declared second l next (resolve_language-Inv true declared first s inv)
      (record { known = h.known; declared_before = a.1 }) r2 a.0

-- A re-declared language is the one of the turn at once, whatever the reading, it is reported as a
-- switch exactly when it was not the one spoken, and no candidate survives it.
pub redeclaration_obeyed :
    (detects : Bool) (declared : LanguageCode) (reading : LanguageReading) (s : LanguageState)
    → s.declared_language ≢ unknown
    → declared ≢ s.declared_language
    → let out = resolve_language detects declared reading s in
      (out.0.0 ≡ declared)
      × ((out.0.1 ≡ false) ↔ (s.language ≡ declared))
      × (out.1.pending_language ≡ none)
      × (out.1.language ≡ declared)
unfolding resolve_language
redeclaration_obeyed detects declared reading s known changed = ground arith
