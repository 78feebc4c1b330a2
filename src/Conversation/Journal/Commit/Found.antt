-- ===== src/Conversation/Journal/Commit/Found.antt =====
-- Finding an operation among the turns of a lead: `_find_operation` of
-- src/pitchbot/conversation/journal.py.
use pitch_bot.Prelude.{
  ◌≡◌, refl, sym, ap, ◌∙◌, arith, Bool, true, false, not, ◌&&◌, Option, none, some, List, [], ◌∷◌,
  Mem, ◌==◌, nat_eq, string_eq, Bool-cases, member, inl, inr, is_some,
}
use mathlib.Core.Path.{subst}
use mathlib.Core.List.{mem-cons_self, mem-cons_of_mem}
use pitch_bot.Conversation.Journal.{JournaledConversationTurn, Journal, failed, done}
use pitch_bot.Conversation.Journal.Load.{find_operation, operation_ids}
use pitch_bot.Conversation.Journal.Commit.{Operation}

-- the turn is the operation's
abbrev pub OfOperation : Operation → JournaledConversationTurn → Type 0
OfOperation op t =
    (t.event.session_id ≡ op.session_id)
    × (t.event.operation_id ≡ op.operation_id)
    × (t.event.operation_fingerprint ≡ op.fingerprint)

-- a turn that is found is the operation's and among those that were searched
abbrev pub FoundIn :
    Operation → List JournaledConversationTurn → Journal (Option JournaledConversationTurn) → Type 0
FoundIn op turns (failed e) = Unit
FoundIn op turns (done none) = Unit
FoundIn op turns (done (some t)) = OfOperation op t × Mem t turns

FoundIn-later :
    (op : Operation) (x : JournaledConversationTurn) (turns : List JournaledConversationTurn)
    (r : Journal (Option JournaledConversationTurn))
    → FoundIn op turns r
    → FoundIn op (x ∷ turns) r
FoundIn-later op x turns (failed e) h = tt
FoundIn-later op x turns (done none) h = tt
FoundIn-later op x turns (done (some t)) h = (h.0, mem-cons_of_mem x h.1)

matches :
    (op : Operation) (t : JournaledConversationTurn)
    → not (t.event.operation_id == op.operation_id) ≡ false
    → ((t.event.session_id == op.session_id)
        && string_eq.beq t.event.operation_fingerprint op.fingerprint)
      ≡ true
    → OfOperation op t
matches op t a b = (
  ground arith,
  ground arith,
  ground (arith, string_eq.beq_iff t.event.operation_fingerprint op.fingerprint),
)

pub find_operation_lem :
    (op : Operation) (turns : List JournaledConversationTurn)
    → FoundIn op turns (find_operation op.session_id op.operation_id op.fingerprint turns)
unfolding find_operation
find_operation_lem op [] = tt
find_operation_lem op (t ∷ turns) =
    let rest = find_operation op.session_id op.operation_id op.fingerprint turns in
    elim (Bool-cases (not (t.event.operation_id == op.operation_id))) [
      | inl other ↦ rw other (FoundIn-later op t turns rest (find_operation_lem op turns))
      | inr same ↦
          elim (Bool-cases (
            (t.event.session_id == op.session_id)
            && string_eq.beq t.event.operation_fingerprint op.fingerprint)) [
              | inl asked ↦ rw (same, asked) (matches op t same asked, mem-cons_self)
              | inr else_ ↦ rw (same, else_) tt
            ]
    ]

-- an operation that is among the turns is not taken for a new one
abbrev pub is_new : Journal (Option JournaledConversationTurn) → Bool
is_new (failed e) = false
is_new (done found) = not (is_some found)

find_operation-known :
    (op : Operation) (turns : List JournaledConversationTurn)
    → member op.operation_id (operation_ids turns) ≡ true
    → is_new (find_operation op.session_id op.operation_id op.fingerprint turns) ≡ false
unfolding find_operation member
find_operation-known op [] h = absurd (ground (arith, h))
find_operation-known op (t ∷ turns) h =
    elim (Bool-cases (t.event.operation_id == op.operation_id)) [
      | inr other ↦ rw other (find_operation-known op turns (ground (arith, other, h)))
      | inl same ↦
          elim (Bool-cases (
            (t.event.session_id == op.session_id)
            && string_eq.beq t.event.operation_fingerprint op.fingerprint)) [
              | inl asked ↦ rw (same, asked) refl
              | inr else_ ↦ rw (same, else_) refl
            ]
    ]

pub found_for :
    (op : Operation) (turns : List JournaledConversationTurn) (t : JournaledConversationTurn)
    → find_operation op.session_id op.operation_id op.fingerprint turns ≡ done (some t)
    → OfOperation op t × Mem t turns
found_for op turns t seen = subst (FoundIn op turns) seen (find_operation_lem op turns)

pub not_new :
    (op : Operation) (turns loaded : List JournaledConversationTurn)
    → turns ≡ loaded
    → member op.operation_id (operation_ids turns) ≡ true
    → find_operation op.session_id op.operation_id op.fingerprint loaded ≡ done none
    → ⊥
not_new op turns loaded same known seen =
    let k =
      find_operation-known op loaded
        (ap (λ x. member op.operation_id (operation_ids x)) (sym same) ∙ known) in
    absurd (ground (arith, seen, k))
