-- ===== src/Actions/Policy/Tests.antt =====
-- The gates, run at concrete contexts.
use pitch_bot.Prelude.{true, false, ◌≡◌, ◌↔◌, [], ◌∷◌, refl}
use pitch_bot.Actions.Policy.{
  BlockReason, consent_missing, classification_ineligible, quota_exceeded, cold, warm,
  ActionAuthorizationContext, approved, callback_schedule, authorize, gate_reasons, when,
  temperature_reasons,
}
use pitch_bot.Actions.Policy.Laws.{Fails, reported, reasons_exact, approved_iff_gates_pass}

abbrev eligible : ActionAuthorizationContext
eligible = record {
  disclosure_delivered = true;
  consent_granted = true;
  contact_policy = record {
    has_opted_out = false;
    outreach_allowed = true;
    allowlisted = true;
    dnd_check_passed = true;
    calling_hours_check_passed = true;
  };
  temperature = warm;
  conversation_disposition = "continue";
  used_actions = 2;
  max_actions = 3;
}

abbrev ineligible : ActionAuthorizationContext
ineligible = record eligible { consent_granted = false; temperature = cold; used_actions = 3 }

ineligible_reasons :
    gate_reasons ineligible ≡ consent_missing ∷ classification_ineligible ∷ quota_exceeded ∷ []
unfolding gate_reasons when temperature_reasons
ineligible_reasons = refl

reasons_exact_example :
    (reported consent_missing (authorize callback_schedule ineligible 100).reasons ≡ true)
    ↔ Fails consent_missing ineligible
reasons_exact_example = reasons_exact callback_schedule consent_missing ineligible 100

approved_iff_gates_pass_example :
    ((authorize callback_schedule eligible 100).status ≡ approved)
    ↔ ((r : BlockReason) → ¬ Fails r eligible)
approved_iff_gates_pass_example = approved_iff_gates_pass callback_schedule eligible 100
