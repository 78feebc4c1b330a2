-- ===== src/Whatsapp/Webhook/Laws.antt =====
-- The receiver against an ideal one, which forgets no message.
use mathlib.Core.List.{flatten}
use pitch_bot.Prelude.{
  latest, latest-append, String, ℕ, ◌+◌, ◌<◌, ◌≡◌, refl, sym, ap, ◌∙◌, arith, List, [], ◌∷◌, ◌++◌,
  map, length, length-append, member, string_eq, if◌then◌else◌, Bool-cases, inl, inr,
}
use pitch_bot.Whatsapp.Webhook.{
  InboundMessage, WebhookReceiver, new_receiver, remember, deliver_within, deliver, dedupe_capacity,
}

abbrev pub ids : List InboundMessage → List String
ids = map (λ m. m.message_id)

-- The accepted messages, in order: a message is refused if its id is among those of the last
-- `capacity` messages that were accepted before it.
unfoldable pub accepted : ℕ → List InboundMessage → List InboundMessage → List InboundMessage
accepted capacity [] before = before
accepted capacity (m ∷ ms) before =
    accepted capacity ms
      (if member m.message_id (latest capacity (ids before)) then before else before ++ m ∷ [])

-- several deliveries, with the number of messages that they let through
unfoldable pub deliver_all : List (List InboundMessage) → WebhookReceiver → ℕ × WebhookReceiver
deliver_all [] w = (0, w)
deliver_all (batch ∷ batches) w =
    let first = deliver batch w in
    let rest = deliver_all batches first.1 in (first.0 + rest.0, rest.1)

-- The receiver remembers the ids of the last messages that it let through.
abbrev Window : ℕ → WebhookReceiver → Type 0
Window capacity w = w.seen ≡ latest capacity (ids w.received)

-- what a delivery does, from the messages let through before it
abbrev Delivers : ℕ → List InboundMessage → WebhookReceiver → ℕ × WebhookReceiver → Type 0
Delivers capacity ms w r =
    (r.1.received ≡ accepted capacity ms w.received)
    × Window capacity r.1
    × (r.0 + length w.received ≡ length r.1.received)

ids-append :
    (ms : List InboundMessage) (m : InboundMessage)
    → ids (ms ++ m ∷ []) ≡ ids ms ++ m.message_id ∷ []
ids-append [] m = refl
ids-append (x ∷ xs) m = ap (λ l. x.message_id ∷ l) (ids-append xs m)

Window-new : Window dedupe_capacity new_receiver
unfolding latest
Window-new = refl

Window-remember :
    (capacity : ℕ) (m : InboundMessage) (w : WebhookReceiver)
    → 0 < capacity
    → Window capacity w
    → remember capacity m.message_id w.seen ≡ latest capacity (ids (w.received ++ m ∷ []))
unfolding remember
Window-remember capacity m w pos win =
    rw (win, ids-append w.received m) (latest-append capacity (ids w.received) m.message_id pos)

deliver_within-Delivers :
    (capacity : ℕ) (ms : List InboundMessage) (w : WebhookReceiver)
    → 0 < capacity
    → Window capacity w
    → Delivers capacity ms w (deliver_within capacity ms w)
unfolding deliver_within accepted
deliver_within-Delivers capacity [] w pos win = (refl, win, omega arith)
deliver_within-Delivers capacity (m ∷ ms) w pos win =
    elim (Bool-cases (member m.message_id w.seen)) [
      | inl known ↦
          let ih = deliver_within-Delivers capacity ms w pos win in
          rw (known, sym win, known) (ih.0, ih.1, omega (arith, ih.2))
      | inr new ↦
          let next : WebhookReceiver = record {
            seen = remember capacity m.message_id w.seen;
            received = w.received ++ m ∷ [];
          } in
          let ih =
            deliver_within-Delivers capacity ms next pos (Window-remember capacity m w pos win) in
          rw (new, sym win, new)
            (ih.0, ih.1, omega (arith, ih.2, length-append w.received (m ∷ [])))
    ]

accepted-append :
    (capacity : ℕ) (ms ns before : List InboundMessage)
    → accepted capacity (ms ++ ns) before ≡ accepted capacity ns (accepted capacity ms before)
unfolding accepted
accepted-append capacity [] ns before = refl
accepted-append capacity (m ∷ ms) ns before = accepted-append capacity ms ns _

deliver_all-Delivers :
    (batches : List (List InboundMessage)) (w : WebhookReceiver)
    → Window dedupe_capacity w
    → Delivers dedupe_capacity (flatten batches) w (deliver_all batches w)
unfolding deliver_all deliver accepted flatten
deliver_all-Delivers [] w win = (refl, win, omega arith)
deliver_all-Delivers (batch ∷ batches) w win =
    let first = deliver_within-Delivers dedupe_capacity batch w (omega arith) win in
    let rest = deliver_all-Delivers batches (deliver batch w).1 first.1 in
    (
      rest.0
          ∙ ap (accepted dedupe_capacity (flatten batches)) first.0
          ∙ sym (accepted-append dedupe_capacity batch (flatten batches) w.received),
      rest.1,
      omega (arith, first.2, rest.2),
    )

-- The messages that any deliveries to a new receiver let through are, in order, those whose id is
-- not among the ids of the last 4,096 messages let through before; the receiver has the ids of the
-- last 4,096 in memory, and the deliveries return how many there are.
pub deliver_refines :
    (batches : List (List InboundMessage))
    → ((deliver_all batches new_receiver).1.received
        ≡ accepted dedupe_capacity (flatten batches) [])
      × ((deliver_all batches new_receiver).1.seen
          ≡ latest dedupe_capacity (ids (deliver_all batches new_receiver).1.received))
      × ((deliver_all batches new_receiver).0
          ≡ length (deliver_all batches new_receiver).1.received)
deliver_refines batches =
    let all = deliver_all-Delivers batches new_receiver Window-new in
    (all.0, all.1, omega (arith, all.2))
