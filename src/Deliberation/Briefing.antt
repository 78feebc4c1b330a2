-- ===== src/Deliberation/Briefing.antt =====
-- What the lane of the turns tells that of the deliberations: `Briefing` of
-- src/pitchbot/deliberation/briefing.py. Python's `strip` and slice of a text are the arguments
-- `strip` and `cut`.
pub mod Laws
mod Tests
use pitch_bot.Prelude.{
  String, ℕ, ◌+◌, Bool, true, false, Option, none, some, List, [], ◌∷◌, ◌++◌, latest, ltb,
  string_eq, if◌then◌else◌,
}

abbrev pub max_observations : ℕ
max_observations = 200

abbrev pub max_value_chars : ℕ
max_value_chars = 300

pub data Topic : Type 0 where
  business_type requested_features budget_stated timeline : Topic

pub record Observation : Type 0 where
  pub topic : Topic
  pub value : String
  pub version : ℕ

pub record SitePlan : Type 0 where
  pub competitors : List String
  pub differentiator : String
  pub pages : List String

pub record Deliberation : Type 0 where
  pub plan : SitePlan
  pub derived_from_version : ℕ
  pub model_id : String

pub record Briefing : Type 0 where
  pub observations : List Observation
  pub version : ℕ
  pub deliberation : Option Deliberation

abbrev pub new_briefing : Briefing
new_briefing = record { observations = []; version = 0; deliberation = none }

-- the observations without the oldest ones that are too many
abbrev pub bounded : List Observation → List Observation
bounded = latest max_observations

-- An observation with a blank value is refused, after its version was taken.
unfoldable pub observe_topic :
    (String → String)
    → (ℕ → String → String)
    → Topic
    → String
    → Briefing
    → Option Observation × Briefing
observe_topic strip cut topic value b =
    let kept = cut max_value_chars (strip value) in
    let observation : Observation = record {
      topic = topic;
      value = kept;
      version = b.version + 1;
    } in
    if string_eq.beq (strip kept) "" then (none, record b { version = b.version + 1 }) else (
      some observation,
      record b {
        version = b.version + 1;
        observations = bounded (b.observations ++ observation ∷ []);
      },
    )

pub data ConcludeResult : Type 0 where
  ownership_error : ConcludeResult
  stored : Bool → ConcludeResult

abbrev pub overtaken : Deliberation → Option Deliberation → Bool
overtaken d none = false
overtaken d (some existing) = ltb d.derived_from_version existing.derived_from_version

unfoldable pub conclude : Deliberation → Briefing → ConcludeResult × Briefing
conclude d b =
    if ltb b.version d.derived_from_version
    then (ownership_error, b)
    else if overtaken d b.deliberation
    then (stored false, b)
    else (stored true, record b { deliberation = some d })

unfoldable pub is_stale : Briefing → Bool
is_stale b = elim b.deliberation [ none ↦ false | some d ↦ ltb d.derived_from_version b.version ]

unfoldable pub current_deliberation : Briefing → Option Deliberation
current_deliberation b = if is_stale b then none else b.deliberation
