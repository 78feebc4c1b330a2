-- ===== src/Conversation/Checkpoint/Laws.antt =====
-- A state, its checkpoint, and the state restored from it.
use pitch_bot.Prelude.{
  String, ℕ, suc, ==_iff, ◌≤◌, ◌≡◌, refl, sym, ap, ◌∙◌, arith, Bool, true, false, none, some, List,
  [], ◌∷◌, ◌++◌, map, length, min, ◌==◌, Dict, get, put, keys, IsDistinct, All, member, latest_all,
  from_keys, from_keys_distinct, string_eq, nat_eq, beq_refl,
}
use mathlib.Core.List.{append-nil, append_assoc}
use pitch_bot.Domain.Facts.{RequirementFact}
use pitch_bot.Conversation.Language.Laws.{Inv}
use pitch_bot.Conversation.State.{ConversationState, digest_capacity}
use pitch_bot.Conversation.Checkpoint.{
  in_range, all_of, is_closed, fields_ok, leads_ok, validate_checkpoint, checkpoint_ok,
  checkpoint_of, export_checkpoint, facts_by_key_of, state_from_checkpoint, restore_checkpoint,
  restored,
}

-- the facts of a lead, each under its key, at most `max_facts`
pub record FactsOk (lead max_facts : ℕ) (d : Dict String RequirementFact) : Type 0 where
  pub few : length d ≤ max_facts
  pub distinct : IsDistinct (keys d)
  pub keyed : All (λ entry. (entry.1.key ≡ entry.0) × (entry.1.lead_id ≡ lead)) d

-- What holds of a conversation between its turns.
pub record StateOk (is_digest : String → Bool) (s : ConversationState) : Type 0 where
  pub turns : s.turn_count ≤ s.max_turns
  pub digests : length s.recent_turn_digests ≤ digest_capacity s
  pub hex : All (λ d. is_digest d ≡ true) s.recent_turn_digests
  pub facts : FactsOk s.lead_id s.max_facts s.facts_by_key
  pub few_evidence : length s.evidence ≤ s.max_evidence
  pub own_evidence : All (λ i. i.lead_id ≡ s.lead_id) s.evidence
  pub few_classifications : length s.classifications ≤ s.max_classifications
  pub own_classifications : All (λ c. c.lead_id ≡ s.lead_id) s.classifications
  pub closing : s.stopped ≡ is_closed s.phase
  pub language : Inv s.language_state

-- the capacities that a checkpoint can have
abbrev pub CapacitiesOk : (String → Bool) → ConversationState → Type 0
CapacitiesOk is_digest s =
    (in_range s.max_turns ≡ true)
    × (in_range s.max_facts ≡ true)
    × (in_range s.max_evidence ≡ true)
    × (in_range s.max_classifications ≡ true)
    × (in_range s.max_goal_changes ≡ true)
    × (is_digest s.digest_key_id ≡ true)

abbrev values : Dict String RequirementFact → List RequirementFact
values = map (λ entry. entry.1)

pub all_of-All {ℓ} :
    {A : Type ℓ} (test : A → Bool) (xs : List A)
    → All (λ x. test x ≡ true) xs
    → all_of test xs ≡ true
unfolding all_of
all_of-All test [] h = refl
all_of-All test (x ∷ xs) h = rw (h.0) (all_of-All test xs h.1)

length-values : (d : Dict String RequirementFact) → length (values d) ≡ length d
length-values [] = refl
length-values (e ∷ d) = ap suc (length-values d)

length-keys : (d : Dict String RequirementFact) → length (keys d) ≡ length d
length-keys [] = refl
length-keys (e ∷ d) = ap suc (length-keys d)

keys-values :
    (lead : ℕ) (d : Dict String RequirementFact)
    → All (λ entry. (entry.1.key ≡ entry.0) × (entry.1.lead_id ≡ lead)) d
    → map (λ f. f.key) (values d) ≡ keys d
keys-values lead [] h = refl
keys-values lead (e ∷ d) h = rw (h.0.0) (ap (λ l. e.0 ∷ l) (keys-values lead d h.1))

pub all_of-mine {ℓ} :
    {A : Type ℓ} (lead_of : A → ℕ) (lead : ℕ) (xs : List A)
    → All (λ x. lead_of x ≡ lead) xs
    → all_of (λ x. lead_of x == lead) xs ≡ true
unfolding all_of
all_of-mine lead_of lead [] h = refl
all_of-mine lead_of lead (x ∷ xs) h =
    rw ((==_iff (lead_of x) lead).1 h.0) (all_of-mine lead_of lead xs h.1)

values-mine :
    (lead : ℕ) (d : Dict String RequirementFact)
    → All (λ entry. (entry.1.key ≡ entry.0) × (entry.1.lead_id ≡ lead)) d
    → All (λ f. f.lead_id ≡ lead) (values d)
values-mine lead [] h = tt
values-mine lead (e ∷ d) h = (h.0.1, values-mine lead d h.1)

unique_values :
    (lead : ℕ) (d : Dict String RequirementFact)
    → IsDistinct (keys d)
    → All (λ entry. (entry.1.key ≡ entry.0) × (entry.1.lead_id ≡ lead)) d
    → length (from_keys (map (λ f. f.key) (values d))) ≡ length (values d)
unique_values lead d distinct keyed =
    rw (keys-values lead d keyed, from_keys_distinct (keys d) distinct)
      (length-keys d ∙ sym (length-values d))

module _ (is_digest : String → Bool) (s : ConversationState) (ok : StateOk is_digest s) where
  leads_lem : leads_ok (checkpoint_of s) ≡ true
  unfolding leads_ok checkpoint_of
  leads_lem =
      rw
        (
          all_of-mine (λ f. f.lead_id) s.lead_id (values s.facts_by_key)
              (values-mine s.lead_id s.facts_by_key ok.facts.keyed),
          all_of-mine (λ i. i.lead_id) s.lead_id s.evidence ok.own_evidence,
          all_of-mine (λ c. c.lead_id) s.lead_id s.classifications ok.own_classifications,
        )
        refl

  fields_lem : CapacitiesOk is_digest s → fields_ok (checkpoint_of s) ≡ true
  unfolding fields_ok checkpoint_of
  fields_lem c = ground (
    arith,
    c,
    ok.digests,
    ok.facts.few,
    ok.few_evidence,
    ok.few_classifications,
    length-values s.facts_by_key,
  )

  validate_lem : validate_checkpoint is_digest (checkpoint_of s) ≡ true
  unfolding validate_checkpoint checkpoint_of
  validate_lem = ground (
    arith,
    ok.turns,
    ok.digests,
    all_of-All is_digest s.recent_turn_digests ok.hex,
    ok.facts.few,
    length-values s.facts_by_key,
    ok.few_evidence,
    ok.few_classifications,
    unique_values s.lead_id s.facts_by_key ok.facts.distinct ok.facts.keyed,
    leads_lem,
    ok.closing,
    ok.language.agree,
  )

  pub checkpoint_ok_lem :
      CapacitiesOk is_digest s → checkpoint_ok is_digest (checkpoint_of s) ≡ true
  unfolding checkpoint_ok checkpoint_of
  checkpoint_ok_lem c = ground (arith, fields_lem c, c.5, validate_lem)

  pub exported : CapacitiesOk is_digest s → export_checkpoint is_digest s ≡ some (checkpoint_of s)
  unfolding export_checkpoint checkpoint_ok checkpoint_of
  exported c = ground (arith, fields_lem c, c.5, validate_lem)

-- a new key goes to the end
put_new :
    (k : String) (f : RequirementFact) (d : Dict String RequirementFact)
    → member k (keys d) ≡ false
    → put k f d ≡ d ++ (k, f) ∷ []
unfolding put member
put_new k f [] h = refl
put_new k f ((j, g) ∷ d) h = ground (arith, h, put_new k f d)

absent_middle :
    (j k : String) (f : RequirementFact) (b d : Dict String RequirementFact)
    → member j (keys (b ++ (k, f) ∷ d)) ≡ false
    → string_eq.beq k j ≡ false
unfolding member
absent_middle j k f [] d h = ground (arith, h)
absent_middle j k f ((i, g) ∷ b) d h = absent_middle j k f b d (ground (arith, h))

absent_before :
    (k : String) (f : RequirementFact) (b d : Dict String RequirementFact)
    → IsDistinct (keys (b ++ (k, f) ∷ d))
    → member k (keys b) ≡ false
unfolding member
absent_before k f [] d h = refl
absent_before k f ((j, g) ∷ b) d h = ground (
  arith,
  absent_before k f b d h.1,
  absent_middle j k f b d h.0,
  string_eq.beq_iff k j,
  string_eq.beq_iff j k,
)

facts_rebuilt :
    (lead : ℕ) (d before : Dict String RequirementFact)
    → IsDistinct (keys (before ++ d))
    → All (λ entry. (entry.1.key ≡ entry.0) × (entry.1.lead_id ≡ lead)) d
    → facts_by_key_of (values d) before ≡ before ++ d
unfolding facts_by_key_of
facts_rebuilt lead [] before distinct keyed = sym (append-nil before)
facts_rebuilt lead ((k, f) ∷ d) before distinct keyed =
    let grown = before ++ (k, f) ∷ [] in
    let assoc : grown ++ d ≡ before ++ (k, f) ∷ d = append_assoc before ((k, f) ∷ []) d in
    ap (λ key. facts_by_key_of (values d) (put key f before)) (keyed.0.0)
    ∙ ap (facts_by_key_of (values d)) (put_new k f before (absent_before k f before d distinct))
    ∙ facts_rebuilt lead d grown (rw assoc distinct) keyed.1
    ∙ assoc

-- what a checkpoint does not keep
abbrev pub without_transients : ConversationState → ConversationState
without_transients s = record s {
  asked_slot_counts = λ slot. 0;
  closing_count = 0;
  understood_slot_keys = λ slot. false;
}

rebuilt :
    (is_digest : String → Bool) (s : ConversationState)
    → StateOk is_digest s
    → state_from_checkpoint s.digest_key_id (checkpoint_of s) ≡ some (without_transients s)
unfolding state_from_checkpoint checkpoint_of
rebuilt is_digest s ok = rw (beq_refl s.digest_key_id) (
    rw
      (
        latest_all (min s.max_turns 20) s.recent_turn_digests ok.digests,
        facts_rebuilt s.lead_id s.facts_by_key [] ok.facts.distinct ok.facts.keyed,
        latest_all s.max_evidence s.evidence ok.few_evidence,
        latest_all s.max_classifications s.classifications ok.few_classifications,
      )
      refl)

-- A conversation in a valid state whose capacities a checkpoint can have does export a checkpoint,
-- and an engine with the same digest key that has no such session restores from it the state as it
-- was, but for the counts of questions and closings and the slots of a model's reading.
pub checkpoint_roundtrip :
    (is_digest : String → Bool) (s : ConversationState) (session_id : ℕ)
    (states : Dict ℕ ConversationState)
    → StateOk is_digest s
    → CapacitiesOk is_digest s
    → get session_id states ≡ none
    → (export_checkpoint is_digest s ≡ some (checkpoint_of s))
      × (restore_checkpoint s.digest_key_id session_id (checkpoint_of s) states
          ≡ restored (put session_id (without_transients s) states))
unfolding restore_checkpoint
checkpoint_roundtrip is_digest s session_id states ok c absent =
    (exported is_digest s ok c, rw (absent, rebuilt is_digest s ok) refl)
