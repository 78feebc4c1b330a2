-- ===== src/Whatsapp/Pricing.antt =====
-- src/pitchbot/whatsapp/pricing.py: what a message costs, and the gate that keeps sending free.
-- Instants and durations are in microseconds. A sentence that explains a decision is the value that
-- tells which sentence it is.
pub mod Laws
mod Tests
use pitch_bot.Prelude.{
  ℕ, ◌+◌, ◌-◌, ◌*◌, Bool, true, false, not, ◌&&◌, Option, none, some, is_none, ltb, if◌then◌else◌,
}

abbrev hour : ℕ
hour = 3600000000

abbrev pub service_window : ℕ
service_window = 24 * hour

abbrev pub free_entry_point_window : ℕ
free_entry_point_window = 72 * hour

pub data MessageCategory : Type 0 where
  service utility marketing authentication : MessageCategory

pub data CostPosture : Type 0 where
  free_only allow_paid : CostPosture

pub data FreeBecause : Type 0 where
  not_free entry_point_open free_form_in_window utility_in_window : FreeBecause

pub data Refusal : Type 0 where
  not_refused : Refusal
  template_without_window : MessageCategory → Refusal
  template_charged_in_window : MessageCategory → Refusal
  never_wrote : Refusal
  window_closed_for : ℕ → Refusal

pub record SendDecision : Type 0 where
  pub allowed : Bool
  pub category : MessageCategory
  pub would_be_charged : Bool
  pub reason : Refusal
  pub free_because : FreeBecause

-- `at is not None and now - at < window`
abbrev pub open_within : ℕ → Option ℕ → ℕ → Bool
open_within window none now = false
open_within window (some t) now = ltb now (t + window)

abbrev pub fep_open : Option ℕ → ℕ → Bool
fep_open answered now = open_within free_entry_point_window answered now

abbrev pub csw_open : Option ℕ → ℕ → Bool
csw_open inbound now = open_within service_window inbound now

unfoldable pub classify : Option ℕ → ℕ → Option MessageCategory → MessageCategory
classify inbound now (some c) = c
classify inbound now none = if csw_open inbound now then service else utility

abbrev free : MessageCategory → FreeBecause → SendDecision
free c why = record {
  allowed = true;
  category = c;
  would_be_charged = false;
  reason = not_refused;
  free_because = why;
}

abbrev is_utility : Option MessageCategory → Bool
is_utility (some utility) = true
is_utility _ = false

-- the sentence of a refusal
abbrev refusal : Option ℕ → ℕ → Option MessageCategory → Refusal
refusal inbound now (some c) =
    if not (csw_open inbound now) then template_without_window c else template_charged_in_window c
refusal none now none = never_wrote
refusal (some t) now none = window_closed_for ((now - t) - service_window)

unfoldable pub decide :
    CostPosture → Option ℕ → ℕ → Option MessageCategory → Option ℕ → SendDecision
unfolding classify
decide posture inbound now template answered =
    let c = classify inbound now template in
    let csw = csw_open inbound now in
    if fep_open answered now
    then free c entry_point_open
    else if is_none template && csw
    then free service free_form_in_window
    else if is_utility template && csw
    then free c utility_in_window
    else elim posture [
      | allow_paid ↦ record {
        allowed = true;
        category = c;
        would_be_charged = true;
        reason = not_refused;
        free_because = not_free;
      }
      | free_only ↦ record {
        allowed = false;
        category = c;
        would_be_charged = true;
        reason = refusal inbound now template;
        free_because = not_free;
      }
    ]

unfoldable pub window_closes_at : ℕ → ℕ
window_closes_at inbound = inbound + service_window

unfoldable pub free_entry_point_closes_at : ℕ → ℕ
free_entry_point_closes_at answered = answered + free_entry_point_window
