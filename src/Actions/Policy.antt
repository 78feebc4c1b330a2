-- ===== src/Actions/Policy.antt =====
-- The gates before an action: `ActionPolicy.authorize` of src/pitchbot/actions/policy.py with the
-- types of src/pitchbot/actions/models.py and `ContactPolicy` of src/pitchbot/domain/models.py.
-- A time is a number.
pub mod Laws
mod Tests
use Prim.Native.String.{String}
use pitch_bot.Prelude.{
  arith, ◌≡◌, ◌↔◌, ℕ, Bool, true, false, not, List, [], ◌∷◌, Eq, leb, ◌==◌, if◌then◌else◌,
  string_eq,
}

pub data BlockReason : Type 0 where
  disclosure_missing consent_missing outreach_not_allowed not_allowlisted dnd_not_passed :
      BlockReason
  calling_hours_not_passed opted_out conversation_not_eligible classification_review : BlockReason
  classification_ineligible quota_exceeded callback_time_invalid policy_changed : BlockReason

abbrev pub reason_code : BlockReason → ℕ
reason_code disclosure_missing = 0
reason_code consent_missing = 1
reason_code outreach_not_allowed = 2
reason_code not_allowlisted = 3
reason_code dnd_not_passed = 4
reason_code calling_hours_not_passed = 5
reason_code opted_out = 6
reason_code conversation_not_eligible = 7
reason_code classification_review = 8
reason_code classification_ineligible = 9
reason_code quota_exceeded = 10
reason_code callback_time_invalid = 11
reason_code policy_changed = 12

abbrev pub same_reason : BlockReason → BlockReason → Bool
same_reason a b = reason_code a == reason_code b

pub record ContactPolicy : Type 0 where
  pub has_opted_out : Bool
  pub outreach_allowed : Bool
  pub allowlisted : Bool
  pub dnd_check_passed : Bool
  pub calling_hours_check_passed : Bool

pub data LeadTemperature : Type 0 where
  hot warm cold review_needed : LeadTemperature

pub record ActionAuthorizationContext : Type 0 where
  pub disclosure_delivered : Bool
  pub consent_granted : Bool
  pub contact_policy : ContactPolicy
  pub temperature : LeadTemperature
  pub conversation_disposition : String
  pub used_actions : ℕ
  pub max_actions : ℕ

pub data AuthorizationStatus : Type 0 where
  approved blocked : AuthorizationStatus

pub data ActionType : Type 0 where
  whatsapp_preview callback_schedule artifact_preview end_contact : ActionType

pub record ActionDecision : Type 0 where
  pub status : AuthorizationStatus
  pub action_type : ActionType
  pub reasons : List BlockReason
  pub decided_at : ℕ

-- `if test: reasons.append(reason)`, before what the rest appends
unfoldable pub when : Bool → BlockReason → List BlockReason → List BlockReason
when b r rest = if b then r ∷ rest else rest

abbrev continues : ActionAuthorizationContext → Bool
continues c = string_eq.beq c.conversation_disposition "continue"

unfoldable pub temperature_reasons : LeadTemperature → List BlockReason → List BlockReason
temperature_reasons review_needed rest = classification_review ∷ rest
temperature_reasons cold rest = classification_ineligible ∷ rest
temperature_reasons warm rest = rest
temperature_reasons hot rest = rest

unfoldable pub gate_reasons : ActionAuthorizationContext → List BlockReason
gate_reasons c =
    let p = c.contact_policy in
    when (not c.disclosure_delivered) disclosure_missing (
      when (not c.consent_granted) consent_missing (
        when p.has_opted_out opted_out (
          when (not p.outreach_allowed) outreach_not_allowed (
            when (not p.allowlisted) not_allowlisted (
              when (not p.dnd_check_passed) dnd_not_passed (
                when (not p.calling_hours_check_passed) calling_hours_not_passed (
                  when (not (continues c)) conversation_not_eligible (
                    temperature_reasons c.temperature
                      (when (leb c.max_actions c.used_actions) quota_exceeded [])))))))))

abbrev pub status_of : List BlockReason → AuthorizationStatus
status_of [] = approved
status_of (r ∷ rs) = blocked

unfoldable pub authorize : ActionType → ActionAuthorizationContext → ℕ → ActionDecision
authorize action c now =
    let reasons = gate_reasons c in
    record { status = status_of reasons; action_type = action; reasons = reasons; decided_at = now }

pub same_reason_iff : (a b : BlockReason) → (same_reason a b ≡ true) ↔ (a ≡ b)
same_reason_iff a b = ground arith

instance abbrev pub reason_eq : Eq BlockReason
reason_eq = record { beq = same_reason; beq_iff = same_reason_iff }
