-- ===== src/Conversation/Planning/Laws.antt =====
-- What a plan asks for, and when it closes.
use pitch_bot.Prelude.{
  String, ℕ, ◌<◌, ◌≡◌, ◌↔◌, arith, Bool, true, false, not, ◌&&◌, Option, none, some, ltb,
}
use pitch_bot.Conversation.Planning.{
  Slot, business_type, requested_features, budget, timeline, index_of, ask_order, Intent,
  TurnUnderstanding, is_closing, is_ready, first_slot, open_slot, plan_of, plan_reply,
}

-- the slots before one fail the test
abbrev NoneBefore : (Slot → Bool) → Slot → Type 0
NoneBefore test business_type = Unit
NoneBefore test requested_features = test business_type ≡ false
NoneBefore test budget = (test business_type ≡ false) × (test requested_features ≡ false)
NoneBefore test timeline =
    (test business_type ≡ false) × (test requested_features ≡ false) × (test budget ≡ false)

first_slot_exact :
    (test : Slot → Bool) (slot : Slot)
    → (first_slot test ask_order ≡ some slot) ↔ ((test slot ≡ true) × NoneBefore test slot)
unfolding first_slot
first_slot_exact test business_type = ground arith
first_slot_exact test requested_features = ground arith
first_slot_exact test budget = ground arith
first_slot_exact test timeline = ground arith

NoneBefore_lem :
    (test : Slot → Bool) (slot : Slot)
    → NoneBefore test slot ↔ ((other : Slot) → index_of other < index_of slot → test other ≡ false)
NoneBefore_lem test slot = (forth slot, back slot)
  where
    forth :
        (slot : Slot)
        → NoneBefore test slot
        → (other : Slot) → index_of other < index_of slot
        → test other ≡ false
    forth business_type n other h = absurd (omega arith)
    forth requested_features n business_type h = n
    forth requested_features n requested_features h = absurd (omega arith)
    forth requested_features n budget h = absurd (omega arith)
    forth requested_features n timeline h = absurd (omega arith)
    forth budget n business_type h = n.0
    forth budget n requested_features h = n.1
    forth budget n budget h = absurd (omega arith)
    forth budget n timeline h = absurd (omega arith)
    forth timeline n business_type h = n.0
    forth timeline n requested_features h = n.1
    forth timeline n budget h = n.2
    forth timeline n timeline h = absurd (omega arith)

    back :
        (slot : Slot)
        → ((other : Slot) → index_of other < index_of slot → test other ≡ false)
        → NoneBefore test slot
    back business_type h = tt
    back requested_features h = h business_type (omega arith)
    back budget h = (h business_type (omega arith), h requested_features (omega arith))
    back timeline h =
        (h business_type (omega arith), h requested_features (omega arith), h budget (omega arith))

asked_exact :
    (first : Option Slot) (a : Option Slot) (i o : Option Intent) (p : Option String) (slot : Slot)
    → ((plan_of a first i o p).asked ≡ some slot) ↔ ((is_ready i ≡ false) × (first ≡ some slot))
asked_exact none a i o p slot = ground arith
asked_exact (some s) a i o p slot = ground arith

closing_exact :
    (first : Option Slot) (a : Option Slot) (i o : Option Intent) (p : Option String)
    → (is_closing (plan_of a first i o p) ≡ true) ↔ ((plan_of a first i o p).asked ≡ none)
unfolding is_closing
closing_exact none a i o p = ground arith
closing_exact (some s) a i (some x) p = ground arith
closing_exact (some s) a i none (some key) = ground arith
closing_exact (some s) a i none none = ground arith

-- A plan asks for a slot exactly when the buyer is not ready and it is the first one, in the order of
-- asking, that is unknown and was asked for less often than the limit; and it closes exactly when it
-- asks for nothing.
pub plan_reply_exact :
    (u : TurnUnderstanding) (repeated : Bool) (counts : Slot → ℕ) (max_asks : ℕ) (slot : Slot)
    → (((plan_reply u repeated counts max_asks).asked ≡ some slot) ↔ (
        (is_ready u.intent ≡ false)
        × (u.known_slots slot ≡ false)
        × (counts slot < max_asks)
        × ((other : Slot)
            → index_of other < index_of slot
            → (not (u.known_slots other) && ltb (counts other) max_asks) ≡ false)))
      × ((is_closing (plan_reply u repeated counts max_asks) ≡ true)
          ↔ ((plan_reply u repeated counts max_asks).asked ≡ none))
unfolding plan_reply
plan_reply_exact u repeated counts max_asks slot =
    let first = first_slot (open_slot u counts max_asks) ask_order in
    let asked = asked_exact first _ u.intent _ _ slot in
    let exact = first_slot_exact (open_slot u counts max_asks) slot in
    let before = NoneBefore_lem (open_slot u counts max_asks) slot in
    (
      (
        λ a.
            let e = exact.0 (asked.0 a).1 in
            ((asked.0 a).0, ground (arith, e.0), ground (arith, e.0), before.0 e.1),
        λ h. asked.1 (h.0, exact.1 (ground (arith, h.1, h.2), before.1 h.3)),
      ),
      closing_exact first _ u.intent _ _,
    )

-- what the planner asks for was asked for less often than the limit
pub asked_open :
    (u : TurnUnderstanding) (repeated : Bool) (counts : Slot → ℕ) (max_asks : ℕ) (slot : Slot)
    → (plan_reply u repeated counts max_asks).asked ≡ some slot
    → (u.known_slots slot ≡ false) × (counts slot < max_asks)
asked_open u repeated counts max_asks slot a =
    let e = (plan_reply_exact u repeated counts max_asks slot).0.0 a in (e.1, e.2)
