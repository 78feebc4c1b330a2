-- ===== src/Conversation/Engine/Parts.antt =====
-- The validity of a state through the parts of a turn.
use pitch_bot.Prelude.{
  String, ℕ, ◌+◌, ◌<◌, ◌≡◌, refl, sym, arith, Bool, true, false, ◌&&◌, Option, none, some, List, [],
  ◌∷◌, length, leb, Dict, get, put, All, All-append, All-latest, put-IsDistinct, put-All,
  length-put_known, length-put_new, length-latest, member, string_eq, Bool-cases, inl, inr,
  if◌then◌else◌,
}
use pitch_bot.Domain.Json.{text}
use pitch_bot.Domain.Facts.{RequirementFact, RequirementRevision, IntentEvidence}
use pitch_bot.Conversation.Language.Laws.{resolve_language-Inv}
use pitch_bot.Conversation.State.{ConversationState, digest_capacity}
use pitch_bot.Conversation.Classify.{classify, classification_of}
use pitch_bot.Conversation.Checkpoint.Laws.{FactsOk, StateOk}
use pitch_bot.Conversation.Engine.{
  TextRules, Turn, same_text, add_candidate, extract_facts, ExtractionResult,
  extract_business_signals, nothing_extracted, Accepted, accept_fact, accept_facts, new_dimensions,
  is_absent,
}
use pitch_bot.Conversation.Engine.Process.{hear, take_facts, take_evidence}

-- What the rules are relied on for: a digest is one, and evidence belongs to the lead it is asked for.
pub record RulesOk (is_digest : String → Bool) (rules : TextRules) : Type 0 where
  pub hex : (t : String) → is_digest (rules.digest t) ≡ true
  pub own :
      (lead : ℕ) (t : String) (span : ℕ) (recorded : Bool)
      → All (λ i. i.lead_id ≡ lead) (rules.extract_evidence lead t span recorded)

pub hear-StateOk :
    (is_digest : String → Bool) (rules : TextRules) (detects : Bool) (turn : Turn)
    (s : ConversationState)
    → RulesOk is_digest rules
    → s.turn_count < s.max_turns
    → StateOk is_digest s
    → StateOk is_digest (hear rules detects turn s).1
unfolding hear
hear-StateOk is_digest rules detects turn s good room ok = record {
  turns = omega (arith, room);
  digests = length-latest (digest_capacity s) _;
  hex =
      All-latest _ (digest_capacity s) _
        (All-append _ s.recent_turn_digests _ ok.hex (good.hex turn.turn_text, tt));
  facts = ok.facts;
  few_evidence = ok.few_evidence;
  own_evidence = ok.own_evidence;
  few_classifications = ok.few_classifications;
  own_classifications = ok.own_classifications;
  closing = ok.closing;
  language = resolve_language-Inv detects turn.declared _ s.language_state ok.language;
}

pub classify-StateOk :
    (is_digest : String → Bool) (version : String) (force : Bool) (s : ConversationState)
    → StateOk is_digest s
    → StateOk is_digest (classify version force s).1
unfolding classify classification_of
classify-StateOk is_digest version force s ok = record {
  turns = ok.turns;
  digests = ok.digests;
  hex = ok.hex;
  facts = ok.facts;
  few_evidence = ok.few_evidence;
  own_evidence = ok.own_evidence;
  few_classifications = length-latest s.max_classifications _;
  own_classifications =
      All-latest _ s.max_classifications _
        (All-append _ s.classifications _ ok.own_classifications (refl, tt));
  closing = ok.closing;
  language = ok.language;
}

pub new_dimensions-All {κ} :
    (P : IntentEvidence → Type κ) (existing : List String) (items : List IntentEvidence)
    → All P items
    → All P (new_dimensions existing items)
unfolding new_dimensions
new_dimensions-All P existing [] h = tt
new_dimensions-All P existing (i ∷ items) h = elim (Bool-cases (member i.dimension existing)) [
  | inl old ↦ rw old (new_dimensions-All P existing items h.1)
  | inr new ↦ rw new (h.0, new_dimensions-All P existing items h.1)
]

put_fact-FactsOk :
    (lead max_facts : ℕ) (fact : RequirementFact) (d : Dict String RequirementFact)
    → fact.lead_id ≡ lead
    → (leb max_facts (length d) && is_absent (get fact.key d)) ≡ false
    → FactsOk lead max_facts d
    → FactsOk lead max_facts (put fact.key fact d)
put_fact-FactsOk lead max_facts fact d mine room ok = record {
  few =
      ground
        (arith, room, ok.few, length-put_known fact.key fact d, length-put_new fact.key fact d);
  distinct = put-IsDistinct fact.key fact d ok.distinct;
  keyed =
      put-All _ fact.key fact d (λ j same. (sym ((string_eq.beq_iff j fact.key).0 same), mine))
        ok.keyed;
}

accept_fact-FactsOk :
    (lead max_facts : ℕ) (revisions : Dict ℕ RequirementRevision) (fact : RequirementFact)
    (a : Accepted)
    → fact.lead_id ≡ lead
    → FactsOk lead max_facts a.facts_by_key
    → FactsOk lead max_facts (accept_fact max_facts revisions fact a).facts_by_key
unfolding accept_fact
accept_fact-FactsOk lead max_facts revisions fact a mine ok =
    elim (Bool-cases
      (leb max_facts (length a.facts_by_key) && is_absent (get fact.key a.facts_by_key))) [
        | inl full ↦ rw full ok
        | inr room ↦ rw room (put_fact-FactsOk lead max_facts fact a.facts_by_key mine room ok)
      ]

accept_facts-FactsOk :
    (lead max_facts : ℕ) (revisions : Dict ℕ RequirementRevision) (facts : List RequirementFact)
    (a : Accepted)
    → All (λ f. f.lead_id ≡ lead) facts
    → FactsOk lead max_facts a.facts_by_key
    → FactsOk lead max_facts (accept_facts max_facts revisions facts a).facts_by_key
unfolding accept_facts
accept_facts-FactsOk lead max_facts revisions [] a mine ok = ok
accept_facts-FactsOk lead max_facts revisions (fact ∷ facts) a mine ok =
    accept_facts-FactsOk lead max_facts revisions facts (accept_fact max_facts revisions fact a)
      mine.1 (accept_fact-FactsOk lead max_facts revisions fact a mine.0 ok)

add_candidate-mine :
    (turn : Turn) (lead i : ℕ) (key value : String) (existing : Option RequirementFact)
    (rest : List RequirementFact × List RequirementRevision)
    → All (λ f. f.lead_id ≡ lead) (rest.0)
    → All (λ f. f.lead_id ≡ lead) ((add_candidate turn lead i key value existing rest).0)
add_candidate-mine turn lead i key value none rest mine = (refl, mine)
add_candidate-mine turn lead i key value (some old) rest mine =
    elim (Bool-cases (same_text old.value (text value))) [
      | inl same ↦ rw same mine
      | inr other ↦ rw other (refl, mine)
    ]

extract_facts-mine :
    (turn : Turn) (lead i : ℕ) (d : Dict String RequirementFact)
    (candidates : List (String × String))
    → All (λ f. f.lead_id ≡ lead) (extract_facts turn lead i d candidates).0
unfolding extract_facts
extract_facts-mine turn lead i d [] = tt
extract_facts-mine turn lead i d ((key, value) ∷ candidates) =
    add_candidate-mine turn lead i key value (get key d) _
      (extract_facts-mine turn lead (i + 1) d candidates)

pub take_facts-StateOk :
    (is_digest : String → Bool) (extraction : ExtractionResult) (s : ConversationState)
    → All (λ f. f.lead_id ≡ s.lead_id) extraction.facts
    → StateOk is_digest s
    → StateOk is_digest (take_facts extraction s).1
unfolding take_facts
take_facts-StateOk is_digest extraction s mine ok = record {
  turns = ok.turns;
  digests = ok.digests;
  hex = ok.hex;
  facts = accept_facts-FactsOk s.lead_id s.max_facts _ extraction.facts _ mine ok.facts;
  few_evidence = ok.few_evidence;
  own_evidence = ok.own_evidence;
  few_classifications = ok.few_classifications;
  own_classifications = ok.own_classifications;
  closing = ok.closing;
  language = ok.language;
}

pub take_evidence-StateOk :
    (is_digest : String → Bool) (items : List IntentEvidence) (s : ConversationState)
    → All (λ i. i.lead_id ≡ s.lead_id) items
    → StateOk is_digest s
    → StateOk is_digest (take_evidence items s)
unfolding take_evidence
take_evidence-StateOk is_digest items s mine ok = record {
  turns = ok.turns;
  digests = ok.digests;
  hex = ok.hex;
  facts = ok.facts;
  few_evidence = length-latest s.max_evidence _;
  own_evidence = All-latest _ s.max_evidence _ (All-append _ s.evidence items ok.own_evidence mine);
  few_classifications = ok.few_classifications;
  own_classifications = ok.own_classifications;
  closing = ok.closing;
  language = ok.language;
}

pub extracted-mine :
    (is_digest : String → Bool) (rules : TextRules) (turn : Turn) (repeated : Bool)
    (s : ConversationState)
    → RulesOk is_digest rules
    → (let x = if repeated then nothing_extracted else extract_business_signals rules turn s in
        All (λ f. f.lead_id ≡ s.lead_id) x.facts × All (λ i. i.lead_id ≡ s.lead_id) x.evidence)
unfolding extract_business_signals
extracted-mine is_digest rules turn true s good = (tt, tt)
extracted-mine is_digest rules turn false s good = (
  extract_facts-mine turn s.lead_id 0 s.facts_by_key (rules.candidates turn.turn_text),
  good.own s.lead_id turn.turn_text turn.source_span_id _,
)
