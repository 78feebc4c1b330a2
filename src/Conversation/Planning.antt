-- ===== src/Conversation/Planning.antt =====
-- What to say next: src/pitchbot/conversation/planning.py. A frozenset of slots is a test on slots,
-- and the counts of a mapping from slots are a function that is 0 where the mapping has no entry. A
-- reply is the list of the phrases that are joined, by their place in a language's table, so the
-- texts themselves are left out; the tables have a phrase for every slot, intent and vertical.
pub mod Laws
mod Tests
use pitch_bot.Prelude.{
  String, ℕ, Bool, true, false, not, ◌&&◌, ◌||◌, Option, none, some, List, [], ◌∷◌, ◌++◌, leb, ltb,
  ◌==◌, string_eq, member, if◌then◌else◌,
}
use pitch_bot.Conversation.Language.{LanguageCode, english, unknown}

pub data Slot : Type 0 where
  business_type requested_features budget timeline : Slot

-- the place in ASK_ORDER
abbrev pub index_of : Slot → ℕ
index_of business_type = 0
index_of requested_features = 1
index_of budget = 2
index_of timeline = 3

abbrev pub same_slot : Slot → Slot → Bool
same_slot a b = index_of a == index_of b

abbrev pub slot_value : Slot → String
slot_value business_type = "business_type"
slot_value requested_features = "requested_features"
slot_value budget = "budget_stated"
slot_value timeline = "timeline"

abbrev pub ask_order : List Slot
ask_order = business_type ∷ requested_features ∷ budget ∷ timeline ∷ []

pub data Intent : Type 0 where
  exploring comparing ready stalling objecting social_proof next_steps : Intent

pub data SalesMove : Type 0 where
  ask answer_objection pitch close : SalesMove

pub record TurnUnderstanding : Type 0 where
  pub known_slots : Slot → Bool
  pub filled_now : Slot → Bool
  pub intent : Option Intent
  pub business_type_key : Option String

pub record ReplyPlan : Type 0 where
  pub acknowledge : Option Slot
  pub asked : Option Slot
  pub plan_intent : Option Intent
  pub objection : Option Intent
  pub pitched : Option String
  pub move : SalesMove

unfoldable pub is_closing : ReplyPlan → Bool
is_closing p = elim p.move [ close ↦ true | _ ↦ false ]

-- `_slots`, as a test: the slots whose values are among the keys
abbrev pub slots_of : List String → Slot → Bool
slots_of keys slot = member (slot_value slot) keys

-- a vertical, if it is a key of the catalogue
unfoldable pub vertical_of : (String → Bool) → Option String → Option String
vertical_of business_types none = none
vertical_of business_types (some key) = if business_types key then some key else none

unfoldable pub understanding_from_facts :
    (String → Bool) → List String → List String → Option String → TurnUnderstanding
understanding_from_facts business_types known_keys filled_keys key = record {
  known_slots = slots_of known_keys;
  filled_now = λ slot. slots_of filled_keys slot && slots_of known_keys slot;
  intent = none;
  business_type_key = vertical_of business_types key;
}

abbrev pub max_asks_per_slot : ℕ
max_asks_per_slot = 2

-- intent if intent in ANSWERABLE_OBJECTIONS else None
unfoldable pub answerable : Option Intent → Option Intent
answerable none = none
answerable (some exploring) = none
answerable (some ready) = none
answerable (some i) = some i

abbrev pub is_ready : Option Intent → Bool
is_ready (some ready) = true
is_ready _ = false

-- the first slot of the list that passes the test
unfoldable pub first_slot : (Slot → Bool) → List Slot → Option Slot
first_slot test [] = none
first_slot test (slot ∷ slots) =
    let later = first_slot test slots in if test slot then some slot else later

-- max(filled_now, key=ASK_ORDER.index), if there is one
unfoldable pub furthest : (Slot → Bool) → Option Slot
furthest filled =
    if filled timeline
    then some timeline
    else if filled budget
    then some budget
    else if filled requested_features
    then some requested_features
    else if filled business_type
    then some business_type
    else none

-- a slot to ask for: of `missing`, one that was not asked for too often
abbrev pub open_slot : TurnUnderstanding → (Slot → ℕ) → ℕ → Slot → Bool
open_slot u counts max_asks slot = not (u.known_slots slot) && ltb (counts slot) max_asks

abbrev pub move_of : Bool → Option Intent → Option String → SalesMove
move_of true objection pitched = close
move_of false (some i) pitched = answer_objection
move_of false none (some key) = pitch
move_of false none none = ask

-- the last part of `plan_reply`, from the slot that could be asked for
abbrev pub plan_of :
    Option Slot → Option Slot → Option Intent → Option Intent → Option String → ReplyPlan
plan_of acknowledge none intent objection pitched = record {
  acknowledge = acknowledge;
  asked = none;
  plan_intent = intent;
  objection = objection;
  pitched = pitched;
  move = close;
}
plan_of acknowledge (some slot) intent objection pitched = record {
  acknowledge = acknowledge;
  asked = if is_ready intent then none else some slot;
  plan_intent = intent;
  objection = objection;
  pitched = pitched;
  move = move_of (is_ready intent) objection pitched;
}

unfoldable pub plan_reply : TurnUnderstanding → Bool → (Slot → ℕ) → ℕ → ReplyPlan
plan_reply u repeated counts max_asks =
    plan_of (if repeated then none else furthest u.filled_now)
      (first_slot (open_slot u counts max_asks) ask_order) u.intent (answerable u.intent)
      (if u.filled_now business_type && not repeated then u.business_type_key else none)

pub data Phrase : Type 0 where
  switched_phrase repeated_phrase confirm closing closing_again closing_final : Phrase
  objection_phrase : Intent → Phrase
  acknowledge_phrase ask_phrase ask_again : Slot → Phrase
  pitch_phrase : String → Phrase

-- `_table`
abbrev pub table_of : LanguageCode → LanguageCode
table_of unknown = english
table_of l = l

abbrev pub phrase_for {ℓ} : {A : Type ℓ} → (A → Phrase) → Option A → List Phrase
phrase_for f none = []
phrase_for f (some x) = f x ∷ []

abbrev pub closing_phrase : ℕ → Phrase
closing_phrase closing_count =
    if closing_count == 0
    then closing
    else if closing_count == 1
    then closing_again
    else closing_final

-- the question, the confirmation, or a close
unfoldable pub last_phrase : Option Slot → Option Intent → ℕ → ℕ → Phrase
last_phrase (some slot) intent closing_count ask_count =
    if ask_count == 0 then ask_phrase slot else ask_again slot
last_phrase none intent closing_count ask_count =
    if is_ready intent then confirm else closing_phrase closing_count

-- the phrases, in the table of the language
unfoldable pub render_reply :
    ReplyPlan → LanguageCode → Bool → Bool → ℕ → ℕ → LanguageCode × List Phrase
render_reply plan language repeated switched closing_count ask_count = (
  table_of language,
  (if switched then switched_phrase ∷ [] else [])
      ++ (phrase_for objection_phrase plan.objection
          ++ ((if repeated
                then repeated_phrase ∷ []
                else phrase_for acknowledge_phrase plan.acknowledge)
              ++ (phrase_for pitch_phrase plan.pitched
                  ++ (last_phrase plan.asked plan.plan_intent closing_count ask_count ∷ [])))),
)
