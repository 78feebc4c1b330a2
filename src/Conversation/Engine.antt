-- ===== src/Conversation/Engine.antt =====
-- What a turn of a conversation goes by: `extract_business_signals` of
-- src/pitchbot/conversation/rules.py and the loops over what it extracts in `process_turn` of
-- src/pitchbot/conversation/engine.py, whose whole is in Process. What the rules read in a text,
-- by regular expressions and tables of words, is a field of `TextRules`; `digest` is the digest of a
-- normalised text under the session's key. Identifiers that the code makes at random are fields of a
-- turn. A session is the state with its briefing, if there is one.
pub mod Process
pub mod Parts
pub mod Invariant
pub mod Sessions
pub mod Safety
pub mod Reading
pub mod Asking
pub mod Table
pub mod Tests
use pitch_bot.Prelude.{
  String, ℕ, ◌+◌, Bool, true, false, not, ◌&&◌, ◌||◌, Option, none, some, List, [], ◌∷◌, ◌++◌, map,
  length, leb, ◌==◌, Dict, get, put, member, string_eq, nat_eq, if◌then◌else◌,
}
use pitch_bot.Domain.Json.{JsonValue, text}
use pitch_bot.Domain.Facts.{RequirementFact, RequirementRevision, IntentEvidence}
use pitch_bot.Deliberation.Briefing.{Briefing}
use pitch_bot.Conversation.Language.{LanguageCode, LanguageReading}
use pitch_bot.Conversation.Planning.{requested_features, Intent, TurnUnderstanding}
use pitch_bot.Conversation.State.{
  SafetySignal, opt_out, abuse, internal_info, prompt_injection, excessive_goal_changes,
  ConversationState,
}

pub record TextRules : Type 0 where
  pub digest : String → String
  pub detect_safety_signals : String → List SafetySignal
  pub candidates : String → List (String × String)
  pub extract_evidence : ℕ → String → ℕ → Bool → List IntentEvidence
  pub detect_intent : String → Option Intent
  pub detect_language : String → Option LanguageCode → LanguageReading
  pub business_types : String → Bool
  pub rule_version : String
  pub strip : String → String
  pub cut : ℕ → String → String

pub record Turn : Type 0 where
  pub turn_text : String
  pub declared : LanguageCode
  pub transcribed_as : Option LanguageCode
  pub source_span_id : ℕ
  pub understanding : Option TurnUnderstanding
  pub new_fact_id : ℕ → ℕ
  pub new_revision_id : ℕ → ℕ

pub record Session : Type 0 where
  pub state : ConversationState
  pub briefing : Option Briefing

abbrev pub signal_code : SafetySignal → ℕ
signal_code opt_out = 0
signal_code abuse = 1
signal_code internal_info = 2
signal_code prompt_injection = 3
signal_code excessive_goal_changes = 4

unfoldable pub has_signal : SafetySignal → List SafetySignal → Bool
has_signal s [] = false
has_signal s (x ∷ xs) = (signal_code x == signal_code s) || has_signal s xs

-- Python's `==` on a stored value and the text of a new fact
abbrev pub same_text : JsonValue → JsonValue → Bool
same_text (text a) (text b) = string_eq.beq a b
same_text _ _ = false

abbrev pub fact_of : Turn → ℕ → ℕ → String → String → RequirementFact
fact_of turn lead i key value = record {
  fact_id = turn.new_fact_id i;
  lead_id = lead;
  key = key;
  value = text value;
}

abbrev pub revision_of : Turn → ℕ → ℕ → String → RequirementFact → RequirementRevision
revision_of turn lead i key existing = record {
  revision_id = turn.new_revision_id i;
  lead_id = lead;
  key = key;
  previous_fact_id = some existing.fact_id;
  replacement_fact_id = turn.new_fact_id i;
  confirmed_by_customer = false;
}

-- one candidate, before what the later ones give
abbrev pub add_candidate :
    Turn
    → ℕ
    → ℕ
    → String
    → String
    → Option RequirementFact
    → List RequirementFact × List RequirementRevision
    → List RequirementFact × List RequirementRevision
add_candidate turn lead i key value none rest = (fact_of turn lead i key value ∷ rest.0, rest.1)
add_candidate turn lead i key value (some existing) rest =
    if same_text existing.value (text value)
    then rest
    else (fact_of turn lead i key value ∷ rest.0, revision_of turn lead i key existing ∷ rest.1)

-- the loop of `extract_business_signals` over the candidates, from the given number on
unfoldable pub extract_facts :
    Turn
    → ℕ
    → ℕ
    → Dict String RequirementFact
    → List (String × String)
    → List RequirementFact × List RequirementRevision
extract_facts turn lead i facts_by_key [] = ([], [])
extract_facts turn lead i facts_by_key ((key, value) ∷ candidates) =
    add_candidate turn lead i key value (get key facts_by_key)
      (extract_facts turn lead (i + 1) facts_by_key candidates)

-- any(fact.key == "requested_features" for fact in facts)
abbrev pub records_requirement : List RequirementFact → Bool
records_requirement facts = member "requested_features" (map (λ f. f.key) facts)

pub record ExtractionResult : Type 0 where
  pub facts : List RequirementFact
  pub revisions : List RequirementRevision
  pub evidence : List IntentEvidence

unfoldable pub extract_business_signals : TextRules → Turn → ConversationState → ExtractionResult
extract_business_signals rules turn s =
    let found = extract_facts turn s.lead_id 0 s.facts_by_key (rules.candidates turn.turn_text) in
    record {
      facts = found.0;
      revisions = found.1;
      evidence =
          rules.extract_evidence s.lead_id turn.turn_text turn.source_span_id
            (records_requirement (found.0));
    }

abbrev pub nothing_extracted : ExtractionResult
nothing_extracted = record { facts = []; revisions = []; evidence = [] }

-- {revision.replacement_fact_id: revision for revision in revisions}, on a dict so far
unfoldable pub by_replacement :
    List RequirementRevision → Dict ℕ RequirementRevision → Dict ℕ RequirementRevision
by_replacement [] d = d
by_replacement (r ∷ rs) d = by_replacement rs (put r.replacement_fact_id r d)

-- what the loop over the facts has accepted so far
pub record Accepted : Type 0 where
  pub facts_by_key : Dict String RequirementFact
  pub goal_change_count : ℕ
  pub facts : List RequirementFact
  pub revisions : List RequirementRevision

abbrev pub changes_goal : Option RequirementFact → RequirementFact → ℕ
changes_goal none fact = 0
changes_goal (some existing) fact = if same_text existing.value fact.value then 0 else 1

abbrev pub is_absent {ℓ} : {A : Type ℓ} → Option A → Bool
is_absent none = true
is_absent (some x) = false

abbrev pub to_list {ℓ} : {A : Type ℓ} → Option A → List A
to_list none = []
to_list (some x) = x ∷ []

unfoldable pub accept_fact : ℕ → Dict ℕ RequirementRevision → RequirementFact → Accepted → Accepted
accept_fact max_facts revisions fact a =
    let existing = get fact.key a.facts_by_key in
    if leb max_facts (length a.facts_by_key) && is_absent existing then a else record {
      facts_by_key = put fact.key fact a.facts_by_key;
      goal_change_count = a.goal_change_count + changes_goal existing fact;
      facts = a.facts ++ fact ∷ [];
      revisions = a.revisions ++ to_list (get fact.fact_id revisions);
    }

unfoldable pub accept_facts :
    ℕ → Dict ℕ RequirementRevision → List RequirementFact → Accepted → Accepted
accept_facts max_facts revisions [] a = a
accept_facts max_facts revisions (fact ∷ facts) a =
    accept_facts max_facts revisions facts (accept_fact max_facts revisions fact a)

-- the items whose dimension is not among the existing ones
unfoldable pub new_dimensions : List String → List IntentEvidence → List IntentEvidence
new_dimensions existing [] = []
new_dimensions existing (item ∷ items) =
    let rest = new_dimensions existing items in
    if member item.dimension existing then rest else item ∷ rest
