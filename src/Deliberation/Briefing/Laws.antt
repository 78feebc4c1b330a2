-- ===== src/Deliberation/Briefing/Laws.antt =====
-- What holds of a briefing whatever the two lanes do, in any order.
use pitch_bot.Prelude.{
  String, ℕ, zero, suc, ◌+◌, ◌-◌, ◌≤◌, ◌<◌, ◌≡◌, ◌↔◌, ap, arith, false, Option, none, some, List,
  [], ◌∷◌, ◌++◌, length, drop, All, All-append, All-latest, latest, length-latest, ltb, string_eq,
  Bool-cases, inl, inr,
}
use pitch_bot.Deliberation.Briefing.{
  max_observations, max_value_chars, Topic, Observation, Deliberation, Briefing, new_briefing,
  observe_topic, conclude, is_stale, current_deliberation, overtaken,
}

-- what a lane does: the turns observe, the deliberations conclude
pub data Action : Type 0 where
  observe : Topic → String → Action
  conclude_with : Deliberation → Action

abbrev act : (String → String) → (ℕ → String → String) → Action → Briefing → Briefing
act strip cut (observe topic value) b = (observe_topic strip cut topic value b).1
act strip cut (conclude_with d) b = (conclude d b).1

-- a briefing after actions, in their order
unfoldable pub act_all :
    (String → String) → (ℕ → String → String) → List Action → Briefing → Briefing
act_all strip cut [] b = b
act_all strip cut (action ∷ actions) b = act_all strip cut actions (act strip cut action b)

-- the versions go up
abbrev Ascending : List Observation → Type 0
Ascending [] = Unit
Ascending (o ∷ os) = All (λ later. o.version < later.version) os × Ascending os

abbrev derived_from : Option Deliberation → ℕ
derived_from none = 0
derived_from (some d) = d.derived_from_version

pub record BriefingOk (b : Briefing) : Type 0 where
  pub few : length b.observations ≤ 200
  pub ordered : Ascending b.observations
  pub past : All (λ o. o.version ≤ b.version) b.observations
  pub derived : derived_from b.deliberation ≤ b.version

Ascending-drop : (n : ℕ) (os : List Observation) → Ascending os → Ascending (drop n os)
Ascending-drop zero os h = h
Ascending-drop (suc n) [] h = tt
Ascending-drop (suc n) (o ∷ os) h = Ascending-drop n os h.1

All-map {ℓ} :
    {A : Type ℓ} (P Q : A → Type 0) (xs : List A) → ((x : A) → P x → Q x) → All P xs → All Q xs
All-map P Q [] f h = tt
All-map P Q (x ∷ xs) f h = (f x h.0, All-map P Q xs f h.1)

Ascending-append :
    (os : List Observation) (new : Observation)
    → Ascending os
    → All (λ o. o.version < new.version) os
    → Ascending (os ++ new ∷ [])
Ascending-append [] new h below = (tt, tt)
Ascending-append (o ∷ os) new h below =
    (All-append _ os _ h.0 (below.0, tt), Ascending-append os new h.1 below.1)

Ascending-latest : (n : ℕ) (os : List Observation) → Ascending os → Ascending (latest n os)
unfolding latest
Ascending-latest n os h = Ascending-drop (length os - n) os h

observe_topic-BriefingOk :
    (strip : String → String) (cut : ℕ → String → String) (topic : Topic) (value : String)
    (b : Briefing)
    → BriefingOk b
    → BriefingOk (observe_topic strip cut topic value b).1
unfolding observe_topic
observe_topic-BriefingOk strip cut topic value b ok =
    let kept = cut max_value_chars (strip value) in
    let new : Observation = record { topic = topic; value = kept; version = b.version + 1 } in
    let before =
      All-map (λ o. o.version ≤ b.version) (λ o. o.version ≤ b.version + 1) b.observations
        (λ o h. omega (arith, h)) ok.past in
    let derived : derived_from b.deliberation ≤ b.version + 1 = omega (arith, ok.derived) in
    elim (Bool-cases (string_eq.beq (strip kept) "")) [
      | inl blank ↦
          rw blank (record { few = ok.few; ordered = ok.ordered; past = before; derived = derived })
      | inr said ↦ rw said (record {
        few = length-latest max_observations _;
        ordered = Ascending-latest max_observations _ (
            Ascending-append b.observations new ok.ordered (
              All-map _ (λ o. o.version < b.version + 1) b.observations (λ o h. omega (arith, h))
                ok.past));
        past =
            All-latest _ max_observations _
              (All-append _ b.observations _ before (omega arith, tt));
        derived = derived;
      })
    ]

conclude-BriefingOk : (d : Deliberation) (b : Briefing) → BriefingOk b → BriefingOk (conclude d b).1
unfolding conclude
conclude-BriefingOk d b ok = elim (Bool-cases (ltb b.version d.derived_from_version)) [
  | inl early ↦ rw early ok
  | inr known ↦ elim (Bool-cases (overtaken d b.deliberation)) [
    | inl old ↦ rw (known, old) ok
    | inr new ↦
        rw (known, new)
          (record {
            few = ok.few;
            ordered = ok.ordered;
            past = ok.past;
            derived = ground (arith, known);
          })
  ]
]

act-BriefingOk :
    (strip : String → String) (cut : ℕ → String → String) (action : Action) (b : Briefing)
    → BriefingOk b
    → BriefingOk (act strip cut action b)
act-BriefingOk strip cut (observe topic value) b ok =
    observe_topic-BriefingOk strip cut topic value b ok
act-BriefingOk strip cut (conclude_with d) b ok = conclude-BriefingOk d b ok

act_all-BriefingOk :
    (strip : String → String) (cut : ℕ → String → String) (actions : List Action) (b : Briefing)
    → BriefingOk b
    → BriefingOk (act_all strip cut actions b)
unfolding act_all
act_all-BriefingOk strip cut [] b ok = ok
act_all-BriefingOk strip cut (action ∷ actions) b ok =
    act_all-BriefingOk strip cut actions _ (act-BriefingOk strip cut action b ok)

-- neither the version nor what a deliberation is derived from goes back
abbrev pub Forward : Briefing → Briefing → Type 0
Forward b c = (b.version ≤ c.version) × (derived_from b.deliberation ≤ derived_from c.deliberation)

conclude-Forward : (d : Deliberation) (b : Briefing) → Forward b (conclude d b).1
unfolding conclude
conclude-Forward d b = elim (Bool-cases (ltb b.version d.derived_from_version)) [
  | inl early ↦ rw early (omega arith, omega arith)
  | inr known ↦ elim (Bool-cases (overtaken d b.deliberation)) [
    | inl old ↦ rw (known, old) (omega arith, omega arith)
    | inr new ↦ rw (known, new) (omega arith, newer d b.deliberation new)
  ]
]
  where
    newer :
        (d : Deliberation) (existing : Option Deliberation)
        → overtaken d existing ≡ false
        → derived_from existing ≤ d.derived_from_version
    newer d none h = omega arith
    newer d (some existing) h = ground (arith, h)

observe_topic-Forward :
    (strip : String → String) (cut : ℕ → String → String) (topic : Topic) (value : String)
    (b : Briefing)
    → Forward b (observe_topic strip cut topic value b).1
unfolding observe_topic
observe_topic-Forward strip cut topic value b =
    elim (Bool-cases (string_eq.beq (strip (cut max_value_chars (strip value))) "")) [
      | inl blank ↦ rw blank (omega arith, omega arith)
      | inr said ↦ rw said (omega arith, omega arith)
    ]

act-Forward :
    (strip : String → String) (cut : ℕ → String → String) (action : Action) (b : Briefing)
    → Forward b (act strip cut action b)
act-Forward strip cut (observe topic value) b = observe_topic-Forward strip cut topic value b
act-Forward strip cut (conclude_with d) b = conclude-Forward d b

act_all-Forward :
    (strip : String → String) (cut : ℕ → String → String) (actions : List Action) (b : Briefing)
    → Forward b (act_all strip cut actions b)
unfolding act_all
act_all-Forward strip cut [] b = (omega arith, omega arith)
act_all-Forward strip cut (action ∷ actions) b =
    let step = act-Forward strip cut action b in
    let later = act_all-Forward strip cut actions (act strip cut action b) in
    (omega (arith, step.0, later.0), omega (arith, step.1, later.1))

-- the deliberation that is given out is derived from exactly the version there is
abbrev pub Exact : Briefing → Deliberation → Type 0
Exact b d =
    (current_deliberation b ≡ some d)
    ↔ ((b.deliberation ≡ some d) × (d.derived_from_version ≡ b.version))

current-Exact_held :
    (held : Option Deliberation) (b : Briefing) (d : Deliberation)
    → derived_from held ≤ b.version
    → Exact (record b { deliberation = held }) d
unfolding current_deliberation is_stale
current-Exact_held none b d h = ground arith
current-Exact_held (some e) b d h = elim (Bool-cases (ltb e.derived_from_version b.version)) [
  | inl stale ↦ rw stale (
      (
        λ given. absurd (ground (arith, given)),
        λ exact.
            let same = ap derived_from (exact.0) in absurd (ground (arith, stale, same, exact.1)),
      ))
  | inr fresh ↦ rw fresh (
      (
        λ given. let same = ap derived_from given in (given, ground (arith, fresh, same, h)),
        λ exact. exact.0,
      ))
]

-- Whatever the turns observe and the deliberations conclude from a new briefing on, in any order: the
-- briefing has at most 200 observations, their versions go up and do not exceed its own, and the
-- deliberation is derived from a version there was; further actions take neither the version nor what
-- the deliberation is derived from back; and the deliberation that is given out as current is exactly
-- one that is derived from the briefing's version.
pub briefing_stays_current :
    (strip : String → String) (cut : ℕ → String → String) (actions later : List Action)
    (d : Deliberation)
    → (let b = act_all strip cut actions new_briefing in
        BriefingOk b × Forward b (act_all strip cut later b) × Exact b d)
briefing_stays_current strip cut actions later d =
    let b = act_all strip cut actions new_briefing in
    let new : BriefingOk new_briefing = record {
      few = omega arith;
      ordered = tt;
      past = tt;
      derived = omega arith;
    } in
    let ok = act_all-BriefingOk strip cut actions new_briefing new in
    (ok, act_all-Forward strip cut later b, current-Exact_held b.deliberation b d ok.derived)
