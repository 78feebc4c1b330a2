-- ===== src/Conversation/Journal/Accepting.antt =====
-- The facts and revisions that a turn accepts, as the journal reads them.
use mathlib.Core.List.{map-append}
use pitch_bot.Prelude.{
  String, ℕ, ◌+◌, ◌≤◌, ◌≡◌, refl, sym, ap, ◌∙◌, arith, Bool, true, false, ◌&&◌, ◌||◌, Option, none,
  some, List, [], ◌∷◌, ◌++◌, map, length, leb, Dict, get, put, member, nat_eq, string_eq, beq_refl,
  All, All-append, put-All, Bool-cases, inl, inr,
}
use pitch_bot.Domain.Json.{text}
use pitch_bot.Domain.Facts.{RequirementFact, RequirementRevision}
use pitch_bot.Conversation.State.{ConversationState}
use pitch_bot.Conversation.Engine.Process.{extraction_of, take_facts}
use pitch_bot.Conversation.Checkpoint.{facts_by_key_of}
use pitch_bot.Conversation.Engine.{
  TextRules, Turn, extract_business_signals, same_text, add_candidate, extract_facts,
  by_replacement, Accepted, accept_fact, accept_facts, is_absent, to_list,
}

-- dict(...)[key] = … over a list, one more
facts_by_key_of-append :
    (fact : RequirementFact) (facts : List RequirementFact) (d : Dict String RequirementFact)
    → facts_by_key_of (facts ++ fact ∷ []) d ≡ put fact.key fact (facts_by_key_of facts d)
unfolding facts_by_key_of
facts_by_key_of-append fact [] d = refl
facts_by_key_of-append fact (f ∷ facts) d = facts_by_key_of-append fact facts (put f.key f d)

member-append : (k : ℕ) (xs ys : List ℕ) → member k (xs ++ ys) ≡ (member k xs || member k ys)
unfolding member
member-append k [] ys = refl
member-append k (x ∷ xs) ys = ground (arith, member-append k xs ys)

abbrev fact_ids : List RequirementFact → List ℕ
fact_ids = map (λ f. f.fact_id)

-- a revision replaces by one of the facts
abbrev pub Linked : List RequirementFact → List RequirementRevision → Type 0
Linked facts = All (λ v. member v.replacement_fact_id (fact_ids facts) ≡ true)

Linked-more :
    (facts : List RequirementFact) (fact : RequirementFact) (revisions : List RequirementRevision)
    → Linked facts revisions
    → Linked (facts ++ fact ∷ []) revisions
Linked-more facts fact [] linked = tt
Linked-more facts fact (v ∷ revisions) linked = (
  rw (map-append (λ f. f.fact_id) facts (fact ∷ [])) (
      ground (
        arith,
        member-append v.replacement_fact_id (fact_ids facts) (fact.fact_id ∷ []),
        linked.0,
      )),
  Linked-more facts fact revisions linked.1,
)

-- what the loop over the facts keeps
pub record AcceptedOk (lead goals : ℕ) (d : Dict String RequirementFact) (a : Accepted)
    : Type 0 where
  pub built : a.facts_by_key ≡ facts_by_key_of a.facts d
  pub forward : goals ≤ a.goal_change_count
  pub mine : All (λ f. f.lead_id ≡ lead) a.facts
  pub revisions_mine : All (λ v. v.lead_id ≡ lead) a.revisions
  pub linked : Linked a.facts a.revisions

-- the revisions by the fact that replaces, each of the lead
abbrev RevisionsOk : ℕ → Dict ℕ RequirementRevision → Type 0
RevisionsOk lead = All (λ entry. (entry.1.replacement_fact_id ≡ entry.0) × (entry.1.lead_id ≡ lead))

by_replacement-RevisionsOk :
    (lead : ℕ) (revisions : List RequirementRevision) (d : Dict ℕ RequirementRevision)
    → All (λ v. v.lead_id ≡ lead) revisions
    → RevisionsOk lead d
    → RevisionsOk lead (by_replacement revisions d)
unfolding by_replacement
by_replacement-RevisionsOk lead [] d mine ok = ok
by_replacement-RevisionsOk lead (v ∷ revisions) d mine ok =
    by_replacement-RevisionsOk lead revisions _ mine.1 (
      put-All _ v.replacement_fact_id v d
        (λ j same. (sym ((nat_eq.beq_iff j v.replacement_fact_id).0 same), mine.0)) ok)

-- what is found under a fact's id replaces by that fact
found-All {κ} :
    (P : RequirementRevision → Type κ) (k : ℕ) (d : Dict ℕ RequirementRevision)
    → All (λ entry. (k ≡ entry.0) → P entry.1) d
    → All P (to_list (get k d))
unfolding get
found-All P k [] h = tt
found-All P k ((j, v) ∷ d) h = elim (Bool-cases (nat_eq.beq j k)) [
  | inl same ↦ rw same (h.0 (sym ((nat_eq.beq_iff j k).0 same)), tt)
  | inr other ↦ rw other (found-All P k d h.1)
]

RevisionsOk-found :
    (lead k : ℕ) (d : Dict ℕ RequirementRevision)
    → RevisionsOk lead d
    → All (λ v. (v.replacement_fact_id ≡ k) × (v.lead_id ≡ lead)) (to_list (get k d))
RevisionsOk-found lead k d ok =
    found-All (λ v. (v.replacement_fact_id ≡ k) × (v.lead_id ≡ lead)) k d (spread d ok)
  where
    spread :
        (d : Dict ℕ RequirementRevision)
        → RevisionsOk lead d
        → All
            (λ entry. (k ≡ entry.0) → (entry.1.replacement_fact_id ≡ k) × (entry.1.lead_id ≡ lead))
            d
    spread [] h = tt
    spread (e ∷ d) h = ((λ same. (h.0.0 ∙ sym same, h.0.1)), spread d h.1)

All-map {ℓ} :
    {A : Type ℓ} (P Q : A → Type 0) (xs : List A) → ((x : A) → P x → Q x) → All P xs → All Q xs
All-map P Q [] f h = tt
All-map P Q (x ∷ xs) f h = (f x h.0, All-map P Q xs f h.1)

-- the new fact is the last one
member-last :
    (fact : RequirementFact) (facts : List RequirementFact)
    → member fact.fact_id (fact_ids (facts ++ fact ∷ [])) ≡ true
unfolding member
member-last fact [] = rw (beq_refl fact.fact_id) refl
member-last fact (f ∷ facts) = ground (arith, member-last fact facts)

taken-AcceptedOk :
    (lead goals : ℕ) (d : Dict String RequirementFact) (revisions : Dict ℕ RequirementRevision)
    (fact : RequirementFact) (a : Accepted) (more : ℕ)
    → fact.lead_id ≡ lead
    → RevisionsOk lead revisions
    → AcceptedOk lead goals d a
    → AcceptedOk lead goals d (record {
      facts_by_key = put fact.key fact a.facts_by_key;
      goal_change_count = a.goal_change_count + more;
      facts = a.facts ++ fact ∷ [];
      revisions = a.revisions ++ to_list (get fact.fact_id revisions);
    })
taken-AcceptedOk lead goals d revisions fact a more mine links ok =
    let found = RevisionsOk-found lead fact.fact_id revisions links in
    record {
      built = ap (put fact.key fact) ok.built ∙ sym (facts_by_key_of-append fact a.facts d);
      forward = omega (arith, ok.forward);
      mine = All-append _ a.facts _ ok.mine (mine, tt);
      revisions_mine =
          All-append _ a.revisions _ ok.revisions_mine (All-map _ _ _ (λ v h. h.1) found);
      linked = All-append _ a.revisions _ (Linked-more a.facts fact a.revisions ok.linked) (
          All-map _ _ _
            (λ v h.
              ap (λ k. member k (fact_ids (a.facts ++ fact ∷ []))) h.0 ∙ member-last fact a.facts)
            found);
    }

accept_fact-AcceptedOk :
    (lead goals max_facts : ℕ) (d : Dict String RequirementFact)
    (revisions : Dict ℕ RequirementRevision) (fact : RequirementFact) (a : Accepted)
    → fact.lead_id ≡ lead
    → RevisionsOk lead revisions
    → AcceptedOk lead goals d a
    → AcceptedOk lead goals d (accept_fact max_facts revisions fact a)
unfolding accept_fact
accept_fact-AcceptedOk lead goals max_facts d revisions fact a mine links ok =
    elim (Bool-cases
      (leb max_facts (length a.facts_by_key) && is_absent (get fact.key a.facts_by_key))) [
        | inl full ↦ rw full ok
        | inr room ↦ rw room (taken-AcceptedOk lead goals d revisions fact a _ mine links ok)
      ]

accept_facts-AcceptedOk :
    (lead goals max_facts : ℕ) (d : Dict String RequirementFact)
    (revisions : Dict ℕ RequirementRevision) (facts : List RequirementFact) (a : Accepted)
    → All (λ f. f.lead_id ≡ lead) facts
    → RevisionsOk lead revisions
    → AcceptedOk lead goals d a
    → AcceptedOk lead goals d (accept_facts max_facts revisions facts a)
unfolding accept_facts
accept_facts-AcceptedOk lead goals max_facts d revisions [] a mine links ok = ok
accept_facts-AcceptedOk lead goals max_facts d revisions (fact ∷ facts) a mine links ok =
    accept_facts-AcceptedOk lead goals max_facts d revisions facts _ mine.1 links
      (accept_fact-AcceptedOk lead goals max_facts d revisions fact a mine.0 links ok)

-- every revision that is extracted belongs to the lead
add_candidate-revisions_mine :
    (turn : Turn) (lead i : ℕ) (key value : String) (existing : Option RequirementFact)
    (rest : List RequirementFact × List RequirementRevision)
    → All (λ v. v.lead_id ≡ lead) (rest.1)
    → All (λ v. v.lead_id ≡ lead) ((add_candidate turn lead i key value existing rest).1)
add_candidate-revisions_mine turn lead i key value none rest mine = mine
add_candidate-revisions_mine turn lead i key value (some old) rest mine =
    elim (Bool-cases (same_text old.value (text value))) [
      | inl same ↦ rw same mine
      | inr other ↦ rw other (refl, mine)
    ]

extract_facts-revisions_mine :
    (turn : Turn) (lead i : ℕ) (d : Dict String RequirementFact)
    (candidates : List (String × String))
    → All (λ v. v.lead_id ≡ lead) (extract_facts turn lead i d candidates).1
unfolding extract_facts
extract_facts-revisions_mine turn lead i d [] = tt
extract_facts-revisions_mine turn lead i d ((key, value) ∷ candidates) =
    add_candidate-revisions_mine turn lead i key value (get key d) _
      (extract_facts-revisions_mine turn lead (i + 1) d candidates)

extraction-revisions_mine :
    (rules : TextRules) (turn : Turn) (repeated : Bool) (s : ConversationState)
    → All (λ v. v.lead_id ≡ s.lead_id) (extraction_of rules turn repeated s).revisions
unfolding extract_business_signals
extraction-revisions_mine rules turn true s = tt
extraction-revisions_mine rules turn false s =
    extract_facts-revisions_mine turn s.lead_id 0 s.facts_by_key (rules.candidates turn.turn_text)

pub take_facts-AcceptedOk :
    (rules : TextRules) (turn : Turn) (repeated : Bool) (s : ConversationState)
    → All (λ f. f.lead_id ≡ s.lead_id) (extraction_of rules turn repeated s).facts
    → AcceptedOk s.lead_id s.goal_change_count s.facts_by_key
        (take_facts (extraction_of rules turn repeated s) s).0
unfolding take_facts facts_by_key_of
take_facts-AcceptedOk rules turn repeated s mine =
    let x = extraction_of rules turn repeated s in
    accept_facts-AcceptedOk s.lead_id s.goal_change_count s.max_facts s.facts_by_key _ x.facts _
      mine
      (by_replacement-RevisionsOk s.lead_id x.revisions []
        (extraction-revisions_mine rules turn repeated s) tt)
      (record { built = refl; forward = omega arith; mine = tt; revisions_mine = tt; linked = tt })
