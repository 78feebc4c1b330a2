-- ===== src/Actions/Policy/Laws.antt =====
-- What the gates let through, and what they report.
use pitch_bot.Prelude.{
  ℕ, Bool, true, false, List, [], ◌∷◌, ◌≡◌, ◌≢◌, ◌↔◌, refl, ◌&&◌, ◌||◌, ◌≤◌, arith, string_eq,
}
use pitch_bot.Actions.Policy.{
  status_of, BlockReason, same_reason, disclosure_missing, consent_missing, outreach_not_allowed,
  not_allowlisted, dnd_not_passed, calling_hours_not_passed, opted_out, conversation_not_eligible,
  classification_review, classification_ineligible, quota_exceeded, callback_time_invalid,
  policy_changed, LeadTemperature, cold, review_needed, ActionAuthorizationContext, approved,
  ActionType, when, temperature_reasons, gate_reasons, authorize,
}

-- What each gate finds wrong, by the reason it reports.
unfoldable pub Fails : BlockReason → ActionAuthorizationContext → Type 0
Fails disclosure_missing c = c.disclosure_delivered ≡ false
Fails consent_missing c = c.consent_granted ≡ false
Fails outreach_not_allowed c = c.contact_policy.outreach_allowed ≡ false
Fails not_allowlisted c = c.contact_policy.allowlisted ≡ false
Fails dnd_not_passed c = c.contact_policy.dnd_check_passed ≡ false
Fails calling_hours_not_passed c = c.contact_policy.calling_hours_check_passed ≡ false
Fails opted_out c = c.contact_policy.has_opted_out ≡ true
Fails conversation_not_eligible c = c.conversation_disposition ≢ "continue"
Fails classification_review c = c.temperature ≡ review_needed
Fails classification_ineligible c = c.temperature ≡ cold
Fails quota_exceeded c = c.max_actions ≤ c.used_actions
Fails callback_time_invalid c = ⊥
Fails policy_changed c = ⊥

unfoldable pub reported : BlockReason → List BlockReason → Bool
reported x [] = false
reported x (r ∷ rs) = same_reason x r || reported x rs

reported-when :
    (x : BlockReason) (b : Bool) (r : BlockReason) (rest : List BlockReason)
    → reported x (when b r rest) ≡ ((same_reason x r && b) || reported x rest)
unfolding when reported
reported-when x b r rest = ground arith

abbrev is_review : LeadTemperature → Bool
is_review t = elim t [ review_needed ↦ true | _ ↦ false ]

abbrev is_cold : LeadTemperature → Bool
is_cold t = elim t [ cold ↦ true | _ ↦ false ]

reported-temperature_reasons :
    (x : BlockReason) (t : LeadTemperature) (rest : List BlockReason)
    → reported x (temperature_reasons t rest) ≡ (
        (same_reason x classification_review && is_review t)
        || ((same_reason x classification_ineligible && is_cold t) || reported x rest))
unfolding temperature_reasons reported
reported-temperature_reasons x t rest = ground arith

ruleset gate_laws = (reported-when, reported-temperature_reasons)

-- A reason is reported exactly when its gate fails: none is invented, none is lost.
pub reasons_exact :
    (action : ActionType) (r : BlockReason) (c : ActionAuthorizationContext) (now : ℕ)
    → (reported r (authorize action c now).reasons ≡ true) ↔ Fails r c
unfolding authorize gate_reasons Fails reported
reasons_exact action r c now = elim r as (λ k. (reported k (gate_reasons c) ≡ true) ↔ Fails k c) [
  | disclosure_missing ↦ simp gate_laws (ground arith)
  | consent_missing ↦ simp gate_laws (ground arith)
  | outreach_not_allowed ↦ simp gate_laws (ground arith)
  | not_allowlisted ↦ simp gate_laws (ground arith)
  | dnd_not_passed ↦ simp gate_laws (ground arith)
  | calling_hours_not_passed ↦ simp gate_laws (ground arith)
  | opted_out ↦ simp gate_laws (ground arith)
  | conversation_not_eligible ↦
      simp gate_laws (ground (arith, string_eq.beq_iff c.conversation_disposition "continue"))
  | classification_review ↦ simp gate_laws (ground arith)
  | classification_ineligible ↦ simp gate_laws (ground arith)
  | quota_exceeded ↦ simp gate_laws (ground arith)
  | callback_time_invalid ↦ simp gate_laws (ground arith)
  | policy_changed ↦ simp gate_laws (ground arith)
]

same_reason_refl : (r : BlockReason) → same_reason r r ≡ true
same_reason_refl r = ground arith

approved_iff_unreported :
    (rs : List BlockReason)
    → (status_of rs ≡ approved) ↔ ((r : BlockReason) → reported r rs ≡ false)
unfolding reported
approved_iff_unreported [] = (λ e r. refl, λ h. refl)
approved_iff_unreported (x ∷ rs) =
    (λ e r. ground arith, λ h. ground (arith, h x, same_reason_refl x))

-- An action is approved exactly when no gate fails.
pub approved_iff_gates_pass :
    (action : ActionType) (c : ActionAuthorizationContext) (now : ℕ)
    → ((authorize action c now).status ≡ approved) ↔ ((r : BlockReason) → ¬ Fails r c)
unfolding authorize
approved_iff_gates_pass action c now =
    let u = approved_iff_unreported (gate_reasons c) in
    (
      λ e r f. ground (arith, u.0 e r, (reasons_exact action r c now).1 f),
      λ h. u.1 (λ r. ground (arith, h r, (reasons_exact action r c now).0)),
    )
