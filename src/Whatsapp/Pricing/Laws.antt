-- ===== src/Whatsapp/Pricing/Laws.antt =====
-- When pricing.py lets a message through, and that a sender that may not spend does not.
use pitch_bot.Prelude.{ℕ, ◌<◌, ◌≡◌, ◌↔◌, ◌⊎◌, true, false, Option, none, some, arith}
use pitch_bot.Whatsapp.Pricing.{
  MessageCategory, utility, CostPosture, free_only, allow_paid, fep_open, csw_open, decide,
  window_closes_at, free_entry_point_closes_at,
}

-- Meta's rule for a message that is not charged: an entry point is open, or the service window is
-- and the message is free-form or a utility template.
abbrev pub IsFree : Option ℕ → ℕ → Option MessageCategory → Option ℕ → Type 0
IsFree inbound now template answered =
    (fep_open answered now ≡ true)
    ⊎ ((csw_open inbound now ≡ true) × ((template ≡ none) ⊎ (template ≡ some utility)))

module _ (inbound : Option ℕ) (now : ℕ) (template : Option MessageCategory)
    (answered : Option ℕ) where
  -- Whatever a caller may spend, a message is reported as not charged exactly when a rule makes it free.
  pub charged_iff_no_rule :
      (posture : CostPosture)
      → ((decide posture inbound now template answered).would_be_charged ≡ false)
        ↔ IsFree inbound now template answered
  unfolding decide
  charged_iff_no_rule free_only = ground arith
  charged_iff_no_rule allow_paid = ground arith

  -- A sender that may not spend sends exactly the messages that a rule makes free.
  pub free_only_exact :
      ((decide free_only inbound now template answered).allowed ≡ true)
      ↔ IsFree inbound now template answered
  unfolding decide
  free_only_exact = ground arith

-- After an inbound message and an answered entry point, a sender that may not spend can send a
-- free-form message exactly until the later of the two closing times that the module tells.
pub free_until_closes :
    (inbound answered now : ℕ)
    → ((decide free_only (some inbound) now none (some answered)).allowed ≡ true)
      ↔ ((now < window_closes_at inbound) ⊎ (now < free_entry_point_closes_at answered))
unfolding decide window_closes_at free_entry_point_closes_at
free_until_closes inbound answered now = ground arith
